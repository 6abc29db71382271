-- ===== src/Memory.antt =====
-- internal/memory/memory_store.go: MemoryShortTermStore, the messages of a session. The time of a
-- call is an argument, and a message without a time has none. SetTTL does nothing in the source.
pub mod Recent
mod Examples
use nebula_flow.Prelude.{
  ℕ, ◌-◌, String, Bool, true, false, not, ◌||◌, List, [], ◌∷◌, ◌++◌, Option, none, some, ltb, leb,
  string_eq, if◌then◌else◌, length, drop,
}
use nebula_flow.Prelude.Int.{ℤ, is_positive, pos_part}
use nebula_flow.Prelude.Maps.{lookup, insert, delete, or_zero}

pub record MemoryMessage : Type 0 where
  pub role : String
  pub content : String
  pub timestamp : Option ℕ
  pub metadata : List (String × String)

pub record MemoryShortTermStore : Type 0 where
  pub sessions : List (String × List MemoryMessage)

unfoldable pub new_memory_short_term_store : MemoryShortTermStore
new_memory_short_term_store = record { sessions = [] }

abbrev pub stamped : ℕ → MemoryMessage → MemoryMessage
stamped now msg = record msg {
  timestamp = elim msg.timestamp [ none ↦ some now | some t ↦ some t ];
}

abbrev pub capped : List MemoryMessage → List MemoryMessage
capped msgs = if ltb 100 (length msgs) then drop (length msgs - 100) msgs else msgs

unfoldable pub append_message :
    ℕ → String → MemoryMessage → MemoryShortTermStore → MemoryShortTermStore
append_message now session msg s = record {
  sessions =
      insert session (capped (or_zero [] (lookup session s.sessions) ++ stamped now msg ∷ []))
        s.sessions;
}

unfoldable pub get_all : String → MemoryShortTermStore → List MemoryMessage
get_all session s = or_zero [] (lookup session s.sessions)

unfoldable pub get_last_n : String → ℤ → MemoryShortTermStore → List MemoryMessage
get_last_n session n s =
    let msgs = or_zero [] (lookup session s.sessions) in
    if not (is_positive n) || leb (length msgs) (pos_part n)
    then msgs
    else drop (length msgs - pos_part n) msgs

unfoldable pub clear_session : String → MemoryShortTermStore → MemoryShortTermStore
clear_session session s = record { sessions = delete session s.sessions }
