-- ===== src/Llm/Gateway/Failover.antt =====
-- What `Chat` returns, whom it asks, and what it does to the breakers.
use nebula_flow.Prelude.{
  Result-cases, subst, append_assoc, ℕ, ◌+◌, ◌≤◌, String, ◌≡◌, ap, ◌∙◌, inl, inr, true, false, List,
  [], ◌∷◌, ◌++◌, Option, none, some, arith, ◌==◌, string_eq, count, ok, err, Bool-cases,
}
use nebula_flow.Llm.Breaker
use nebula_flow.Llm.Breaker.{asks, fails, succeeds}
use nebula_flow.Llm.Registry.{CircuitBreakerRegistry, get_or_create}
use nebula_flow.Llm.Registry
use nebula_flow.Llm.Registry.Independence.{calls-step}
use nebula_flow.Llm.Gateway.{
  ChatResponse, ProviderError, Provider, skipped, answered, failed, attempt, chat_loop, chat,
  after_failure,
}

abbrev pub names : List Provider → List String
names [] = []
names (p ∷ ps) = p.name ∷ names ps

-- The three ends of a round, with what each says of the provider.
pub data Round (r : CircuitBreakerRegistry) (p : Provider) : Type 0 where
  refused : (attempt r p).1 ≡ skipped → (Registry.allow r p.name p.asked_at).1 ≡ false → Round r p
  served :
      (resp : ChatResponse)
      → (attempt r p).1 ≡ answered resp
      → p.answer ≡ ok resp
      → (Registry.allow r p.name p.asked_at).1 ≡ true
      → Round r p
  erred :
      (e : ProviderError)
      → (attempt r p).1 ≡ failed e
      → p.answer ≡ err e
      → (Registry.allow r p.name p.asked_at).1 ≡ true
      → Round r p

pub round : (r : CircuitBreakerRegistry) (p : Provider) → Round r p
unfolding attempt
round r p = elim (Bool-cases (Registry.allow r p.name p.asked_at).1) [
  | inl yes_ ↦ elim (Result-cases p.answer) [
    | inl (resp, a) ↦ served resp (ground arith) a yes_
    | inr (e, a) ↦ erred e (ground arith) a yes_
  ]
  | inr refused_ ↦ refused (ground arith) refused_
]

-- The loop, one round unfolded, by the round's end.
pub loop_skips :
    (model : String) (p : Provider) (ps : List Provider) (r : CircuitBreakerRegistry)
    (skips : List String) (last : Option ProviderError)
    → (attempt r p).1 ≡ skipped
    → chat_loop model (p ∷ ps) r skips last
      ≡ chat_loop model ps (attempt r p).0 (skips ++ p.name ∷ []) last
unfolding chat_loop
loop_skips model p ps r skips last h = ground arith

pub loop_fails :
    (model : String) (p : Provider) (ps : List Provider) (r : CircuitBreakerRegistry)
    (skips : List String) (last : Option ProviderError) (e : ProviderError)
    → (attempt r p).1 ≡ failed e
    → chat_loop model (p ∷ ps) r skips last
      ≡ after_failure p.name model e (chat_loop model ps (attempt r p).0 skips (some e))
unfolding chat_loop
loop_fails model p ps r skips last e h = ground arith

pub loop_serves :
    (model : String) (p : Provider) (ps : List Provider) (r : CircuitBreakerRegistry)
    (skips : List String) (last : Option ProviderError) (resp : ChatResponse)
    → (attempt r p).1 ≡ answered resp
    → ((chat_loop model (p ∷ ps) r skips last).result ≡ ok resp)
      × ((chat_loop model (p ∷ ps) r skips last).called ≡ p.name ∷ [])
      × ((chat_loop model (p ∷ ps) r skips last).registry ≡ (attempt r p).0)
unfolding chat_loop
loop_serves model p ps r skips last resp h = ground arith

-- A round touches the breaker of its provider only.
pub attempt-other :
    (r : CircuitBreakerRegistry) (p : Provider) (other : String)
    → (p.name == other) ≡ false
    → get_or_create (attempt r p).0 other ≡ get_or_create r other
unfolding attempt
attempt-other r p other h = ground (
  arith,
  calls-step r p.name other (asks p.asked_at),
  calls-step (Registry.allow r p.name p.asked_at).0 p.name other succeeds,
  calls-step (Registry.allow r p.name p.asked_at).0 p.name other (fails p.answered_at),
)

-- Whether a provider is admitted depends on its own breaker.
allow-get_or_create :
    (r s : CircuitBreakerRegistry) (name : String) (now : ℕ)
    → get_or_create r name ≡ get_or_create s name
    → (Registry.allow r name now).1 ≡ (Registry.allow s name now).1
unfolding Registry.allow
allow-get_or_create r s name now h = ap (λ cb. (Breaker.allow now cb).1) h

module _ (model : String) where
  -- Nobody but the providers is called.
  called-le :
      (ps : List Provider) (r : CircuitBreakerRegistry) (skips : List String)
      (last : Option ProviderError) (k : String)
      → count k (chat_loop model ps r skips last).called ≤ count k (names ps)
  unfolding chat_loop
  called-le [] r skips last k = omega arith
  called-le (p ∷ ps) r skips last k = elim (round r p) [
    | refused e _ ↦
        rw (loop_skips model p ps r skips last e)
          (omega (arith, called-le ps (attempt r p).0 (skips ++ p.name ∷ []) last k))
    | served resp e _ _ ↦ rw (loop_serves model p ps r skips last resp e).1 (omega arith)
    | erred x e _ _ ↦
        rw (loop_fails model p ps r skips last x e)
          (omega (arith, called-le ps (attempt r p).0 skips (some x) k))
  ]

  -- A provider that its breaker refuses is passed over without a call.
  loop_refused :
      (before after : List Provider) (p : Provider) (r : CircuitBreakerRegistry)
      (skips : List String) (last : Option ProviderError)
      → count p.name (names before) + count p.name (names after) ≡ 0
      → (Registry.allow r p.name p.asked_at).1 ≡ false
      → count p.name (chat_loop model (before ++ p ∷ after) r skips last).called ≡ 0
  loop_refused [] after p r skips last h a = elim (round r p) [
    | refused e _ ↦
        rw (loop_skips model p after r skips last e)
          (omega (arith, called-le after (attempt r p).0 (skips ++ p.name ∷ []) last p.name))
    | served resp _ _ b ↦ cc
    | erred x _ _ b ↦ cc
  ]
  loop_refused (q ∷ before) after p r skips last h a =
      let other : (q.name == p.name) ≡ false = ground arith in
      let rec = λ (s : List String) (l : Option ProviderError).
        loop_refused before after p (attempt r q).0 s l (ground arith) (
          allow-get_or_create (attempt r q).0 r p.name p.asked_at (attempt-other r q p.name other)
          ∙ a) in
      elim (round r q) [
        | refused e _ ↦
            rw (loop_skips model q (before ++ p ∷ after) r skips last e)
              (rec (skips ++ q.name ∷ []) last)
        | served resp e _ _ ↦
            rw (loop_serves model q (before ++ p ∷ after) r skips last resp e).1 (ground arith)
        | erred x e _ _ ↦
            rw (loop_fails model q (before ++ p ∷ after) r skips last x e)
              (ground (arith, rec skips (some x)))
      ]

  -- A provider that is admitted and answers is enough for a result.
  loop_served :
      (before after : List Provider) (p : Provider) (r : CircuitBreakerRegistry)
      (skips : List String) (last : Option ProviderError) (resp : ChatResponse)
      → count p.name (names before) ≡ 0
      → (Registry.allow r p.name p.asked_at).1 ≡ true
      → p.answer ≡ ok resp
      → (got : ChatResponse) × ((chat_loop model (before ++ p ∷ after) r skips last).result
          ≡ ok got)
  loop_served [] after p r skips last resp h a b = elim (round r p) [
    | refused _ c ↦ cc
    | served got e _ _ ↦ (got, (loop_serves model p after r skips last got e).0)
    | erred x _ c _ ↦ cc
  ]
  loop_served (q ∷ before) after p r skips last resp h a b =
      let other : (q.name == p.name) ≡ false = ground arith in
      let rec = λ (s : List String) (l : Option ProviderError).
        loop_served before after p (attempt r q).0 s l resp (ground arith)
          (allow-get_or_create (attempt r q).0 r p.name p.asked_at (attempt-other r q p.name other)
            ∙ a)
          b in
      elim (round r q) [
        | refused e _ ↦
            rw (loop_skips model q (before ++ p ∷ after) r skips last e)
              (rec (skips ++ q.name ∷ []) last)
        | served got e _ _ ↦ (got, (loop_serves model q (before ++ p ∷ after) r skips last got e).0)
        | erred x e _ _ ↦
            rw (loop_fails model q (before ++ p ∷ after) r skips last x e) (rec skips (some x))
      ]

refused_uncalled :
    (model : String) (before after : List Provider) (p : Provider) (r : CircuitBreakerRegistry)
    → count p.name (names before) + count p.name (names after) ≡ 0
    → (Registry.allow r p.name p.asked_at).1 ≡ false
    → count p.name (chat model (before ++ p ∷ after) r).called ≡ 0
unfolding chat
refused_uncalled model [] after p r h a = loop_refused model [] after p r [] none h a
refused_uncalled model (q ∷ before) after p r h a =
    loop_refused model (q ∷ before) after p r [] none h a

-- If a provider not named before is admitted and answers, the chat succeeds, whatever the
-- providers before it do.
pub chat_served :
    (model : String) (before after : List Provider) (p : Provider) (r : CircuitBreakerRegistry)
    (resp : ChatResponse)
    → count p.name (names before) ≡ 0
    → (Registry.allow r p.name p.asked_at).1 ≡ true
    → p.answer ≡ ok resp
    → (got : ChatResponse) × ((chat model (before ++ p ∷ after) r).result ≡ ok got)
unfolding chat
chat_served model [] after p r resp h a b = loop_served model [] after p r [] none resp h a b
chat_served model (q ∷ before) after p r resp h a b =
    loop_served model (q ∷ before) after p r [] none resp h a b

-- A provider, named once, that its breaker refuses is not called, and the loop goes on behind it: if
-- a later provider, not named before, is admitted and answers, the chat succeeds.
pub chat_refused :
    (model : String) (before between after : List Provider) (p q : Provider)
    (r : CircuitBreakerRegistry) (resp : ChatResponse)
    → count p.name (names before) + count p.name (names (between ++ q ∷ after)) ≡ 0
    → (Registry.allow r p.name p.asked_at).1 ≡ false
    → count q.name (names (before ++ p ∷ between)) ≡ 0
    → (Registry.allow r q.name q.asked_at).1 ≡ true
    → q.answer ≡ ok resp
    → let outcome = chat model (before ++ p ∷ (between ++ q ∷ after)) r in
      (count p.name outcome.called ≡ 0) × (got : ChatResponse) × (outcome.result ≡ ok got)
chat_refused model before between after p q r resp once refuses fresh admits answers =
    let (got, served_) =
      subst (λ ps. (got : ChatResponse) × ((chat model ps r).result ≡ ok got))
        (append_assoc before (p ∷ between) (q ∷ after))
        (chat_served model (before ++ p ∷ between) after q r resp fresh admits answers) in
    (refused_uncalled model before (between ++ q ∷ after) p r once refuses, got, served_)
