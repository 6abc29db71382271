-- ===== src/Memory/Recent.antt =====
-- What a session remembers: the last messages since it was cleared.
use nebula_flow.Prelude.{
  ℕ, suc, ◌-◌, ◌≤◌, String, ◌≡◌, refl, sym, ap, ◌∙◌, inl, inr, List, [], ◌∷◌, ◌++◌, ltb, leb,
  string_eq, ◌==◌, if◌then◌else◌, length, length-append, drop, arith, Bool-cases,
}
use nebula_flow.Prelude.Int.{ℤ, is_positive, pos_part}
use nebula_flow.Prelude.Maps.{lookup, or_zero, lookup-insert, lookup-delete}
use nebula_flow.Memory.{
  MemoryMessage, MemoryShortTermStore, new_memory_short_term_store, stamped, capped, append_message,
  get_all, get_last_n, clear_session,
}

pub data Change : Type 0 where
  appends : ℕ → String → MemoryMessage → Change
  clears : String → Change

abbrev pub change : Change → MemoryShortTermStore → MemoryShortTermStore
change (appends now session msg) s = append_message now session msg s
change (clears session) s = clear_session session s

abbrev pub run : List Change → MemoryShortTermStore → MemoryShortTermStore
run [] s = s
run (c ∷ cs) s = run cs (change c s)

-- The messages said in a session since it was cleared.
abbrev pub said_then : String → Change → List MemoryMessage → List MemoryMessage
said_then k (appends now session msg) said =
    if session == k then said ++ stamped now msg ∷ [] else said
said_then k (clears session) said = if session == k then [] else said

abbrev pub said_in : String → List Change → List MemoryMessage → List MemoryMessage
said_in k [] said = said
said_in k (c ∷ cs) said = said_in k cs (said_then k c said)

abbrev pub last : ℕ → List MemoryMessage → List MemoryMessage
last n xs = drop (length xs - n) xs

last-short : (n : ℕ) (xs : List MemoryMessage) → length xs ≤ n → last n xs ≡ xs
last-short n xs h = let none_left : length xs - n ≡ 0 = omega arith in ap (λ k. drop k xs) none_left

last-long :
    (n : ℕ) (x : MemoryMessage) (xs : List MemoryMessage)
    → n ≤ length xs
    → last n (x ∷ xs) ≡ last n xs
last-long n x xs h =
    let one_more : length (x ∷ xs) - n ≡ suc (length xs - n) = omega arith in
    ap (λ k. drop k (x ∷ xs)) one_more

-- Nothing of what counts is lost by forgetting early.
last-append :
    (n : ℕ) (xs : List MemoryMessage) (m : MemoryMessage)
    → last n (last n xs ++ m ∷ []) ≡ last n (xs ++ m ∷ [])
last-append n [] m = rw (last-short n [] (omega arith)) refl
last-append n (x ∷ xs) m = elim (Bool-cases (ltb (length xs) n)) [
  | inl short ↦ rw (last-short n (x ∷ xs) (ground arith)) refl
  | inr long ↦ rw (last-long n x xs (ground arith)) (
      last-append n xs m
      ∙ sym (last-long n x (xs ++ m ∷ []) (ground (arith, length-append xs (m ∷ [])))))
]

capped_lem : (xs : List MemoryMessage) → capped xs ≡ last 100 xs
capped_lem xs = elim (Bool-cases (ltb 100 (length xs))) [
  | inl y ↦ rw y refl
  | inr n ↦ rw n (sym (last-short 100 xs (ground arith)))
]

step :
    (k : String) (c : Change) (s : MemoryShortTermStore) (said : List MemoryMessage)
    → get_all k s ≡ last 100 said
    → get_all k (change c s) ≡ last 100 (said_then k c said)
unfolding get_all append_message clear_session
step k (appends now session msg) s said h =
    let m = stamped now msg in
    let added = capped (or_zero [] (lookup session s.sessions) ++ m ∷ []) in
    ap (or_zero []) (lookup-insert session k added s.sessions) ∙ elim (Bool-cases (session == k)) [
      | inl y ↦
          let same : session ≡ k = (string_eq.beq_iff session k).0 y in
          rw y (
            ap (λ xs. capped (xs ++ m ∷ [])) (ap (λ j. get_all j s) same ∙ h)
            ∙ capped_lem (last 100 said ++ m ∷ [])
            ∙ last-append 100 said m)
      | inr n ↦ rw n h
    ]
step k (clears session) s said h =
    ap (or_zero []) (lookup-delete session k s.sessions)
    ∙ elim (Bool-cases (session == k)) [ inl y ↦ rw y refl | inr n ↦ rw n h ]

runs :
    (k : String) (cs : List Change) (s : MemoryShortTermStore) (said : List MemoryMessage)
    → get_all k s ≡ last 100 said
    → get_all k (run cs s) ≡ last 100 (said_in k cs said)
runs k [] s said h = h
runs k (c ∷ cs) s said h = runs k cs (change c s) (said_then k c said) (step k c s said h)

get_last_n_lem :
    (k : String) (n : ℤ) (s : MemoryShortTermStore)
    → get_last_n k n s ≡ (if is_positive n then last (pos_part n) (get_all k s) else get_all k s)
unfolding get_last_n get_all
get_last_n_lem k n s = elim (Bool-cases (is_positive n)) [
  | inr unasked ↦ rw unasked refl
  | inl y ↦ elim (Bool-cases (leb (length (get_all k s)) (pos_part n))) [
    | inl short ↦ rw (y, short) (sym (last-short (pos_part n) (get_all k s) (ground arith)))
    | inr long ↦ rw (y, long) refl
  ]
]

forgotten : (k : String) → get_all k new_memory_short_term_store ≡ []
unfolding get_all new_memory_short_term_store lookup
forgotten k = refl

-- After any appends and clearings of any sessions, GetAll gives the messages said in the session
-- since it was last cleared, the last hundred of them where there are more, each with its time. So
-- does GetLastN, with the last of these where a positive number is asked for.
pub recent_lem :
    (k : String) (n : ℤ) (cs : List Change)
    → let s = run cs new_memory_short_term_store in
      (get_all k s ≡ last 100 (said_in k cs []))
      × (get_last_n k n s ≡ (
          if is_positive n
          then last (pos_part n) (last 100 (said_in k cs []))
          else last 100 (said_in k cs [])))
recent_lem k n cs =
    let all = runs k cs new_memory_short_term_store [] (forgotten k) in
    (all, get_last_n_lem k n _ ∙ ap (λ xs. if is_positive n then last (pos_part n) xs else xs) all)
