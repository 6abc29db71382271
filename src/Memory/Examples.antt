-- ===== src/Memory/Examples.antt =====
-- A session that is cleared between two messages.
use nebula_flow.Prelude.{String, List, [], ◌∷◌, none, some, ◌≡◌, refl, string_eq, if◌then◌else◌}
use nebula_flow.Prelude.Int.{pos, is_positive, pos_part}
use nebula_flow.Prelude.Maps.{lookup, insert, delete}
use nebula_flow.Memory.{
  MemoryMessage, new_memory_short_term_store, get_all, get_last_n, append_message, clear_session,
}
use nebula_flow.Memory.Recent.{Change, appends, clears, run, said_in, last, recent_lem}

abbrev message : String → MemoryMessage
message content = record { role = "user"; content = content; timestamp = none; metadata = [] }

abbrev changes : List Change
changes =
    appends 1 "s" (message "old")
    ∷ appends 2 "t" (message "other")
    ∷ clears "s"
    ∷ appends 3 "s" (message "new")
    ∷ appends 4 "s" (message "newer")
    ∷ []

newest_only :
    get_last_n "s" (pos 1) (run changes new_memory_short_term_store)
    ≡ record (message "newer") { timestamp = some 4 } ∷ []
unfolding get_last_n append_message clear_session new_memory_short_term_store lookup insert delete
newest_only = refl

recent_lem_example :
    let s = run changes new_memory_short_term_store in
    (get_all "s" s ≡ last 100 (said_in "s" changes []))
    × (get_last_n "s" (pos 1) s ≡ (
        if is_positive (pos 1)
        then last (pos_part (pos 1)) (last 100 (said_in "s" changes []))
        else last 100 (said_in "s" changes [])))
recent_lem_example = recent_lem "s" (pos 1) changes
