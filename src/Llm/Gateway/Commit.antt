-- ===== src/Llm/Gateway/Commit.antt =====
-- A stream is switched only before its first content, and loses nothing after it while its caller
-- stays.
use nebula_flow.Prelude.{
  ℕ, zero, suc, take, Bool, String, ◌≡◌, refl, sym, ap, ◌∙◌, ◌⊎◌, inl, inr, true, false, List, [],
  ◌∷◌, ◌++◌, append_assoc, All, All-append, count, ◌+◌, ◌≤◌, Option, none, some, arith, string_eq,
  ◌==◌, if◌then◌else◌, Result, ok, err, ok-injective, Bool-cases,
}
use nebula_flow.Llm.Registry.{CircuitBreakerRegistry}
use nebula_flow.Llm.Gateway.{ProviderError}
use nebula_flow.Llm.Gateway.Stream.{
  Chunk, Signal, received, closed, timed_out, ctx_done, StreamProvider, is_empty, has_content,
  Awaited, await_first_token, chunks_of, forward_all, StreamAttempted, skipped, committed, failed,
  stream_attempt, stream_loop, stream, also_opened,
}

abbrev pub stream_names : List StreamProvider → List String
stream_names [] = []
stream_names (p ∷ ps) = p.name ∷ stream_names ps

has_content-empty : (cs : List Chunk) → All (λ c. is_empty c ≡ true) cs → has_content cs ≡ false
unfolding has_content
has_content-empty [] h = refl
has_content-empty (c ∷ cs) h = ground (arith, has_content-empty cs h.1)

-- The buffer and what is left of the signals are all the chunks of the stream. If the provider is
-- accepted, content stands in the buffer, at its end and only there; if not, there is none.
pub record Waited (buf : List Chunk) (sigs : List Signal) (a : Awaited) : Type 0 where
  pub complete : a.buffered ++ chunks_of a.rest ≡ buf ++ chunks_of sigs
  pub accepted :
      a.ok_ ≡ true
      → (early : List Chunk) × (c : Chunk) × (a.buffered ≡ early ++ c ∷ [])
        × All (λ x. is_empty x ≡ true) early
        × (is_empty c ≡ false)
  pub given_up : a.ok_ ≡ false → All (λ x. is_empty x ≡ true) a.buffered

await-Waited :
    (sigs : List Signal) (buf : List Chunk)
    → All (λ x. is_empty x ≡ true) buf
    → Waited buf sigs (await_first_token sigs buf)
unfolding await_first_token
await-Waited [] buf h = record {
  complete = refl;
  accepted = λ e. cc (has_content-empty buf h);
  given_up = λ e. h;
}
await-Waited (received c ∷ sigs) buf h = elim (Bool-cases (is_empty c)) [
  | inr full ↦ rw full (record {
    complete = append_assoc buf (c ∷ []) (chunks_of sigs);
    accepted = λ e. (buf, c, refl, h, full);
    given_up = λ e. cc;
  })
  | inl empty ↦
      let all : All (λ x. is_empty x ≡ true) (buf ++ c ∷ []) =
        All-append (λ x. is_empty x ≡ true) buf (c ∷ []) h (empty, tt) in
      elim (Bool-cases c.done) [
        | inl last ↦
            simp (empty, last)
              (record {
                complete = append_assoc buf (c ∷ []) (chunks_of sigs);
                accepted = λ e. cc (has_content-empty (buf ++ c ∷ []) all);
                given_up = λ e. all;
              })
        | inr more ↦
            let w = await-Waited sigs (buf ++ c ∷ []) all in
            simp (empty, more)
              (record {
                complete = w.complete ∙ append_assoc buf (c ∷ []) (chunks_of sigs);
                accepted = w.accepted;
                given_up = w.given_up;
              })
      ]
]
await-Waited (closed ∷ sigs) buf h = record {
  complete = refl;
  accepted = λ e. ground (arith, has_content-empty buf h);
  given_up = λ e. h;
}
await-Waited (timed_out ∷ sigs) buf h = record {
  complete = refl;
  accepted = λ e. cc (has_content-empty buf h);
  given_up = λ e. h;
}
await-Waited (ctx_done ∷ sigs) buf h = record {
  complete = refl;
  accepted = λ e. cc (has_content-empty buf h);
  given_up = λ e. h;
}

-- A provider is accepted exactly by its first content: the chunks before it are empty and are kept,
-- and a provider that is given up has sent none. No chunk is lost.
pub await_first_token-Waited : (sigs : List Signal) → Waited [] sigs (await_first_token sigs [])
await_first_token-Waited sigs = await-Waited sigs [] tt

opens-cases :
    (m : Result ProviderError (List Signal))
    → ((sigs : List Signal) × (m ≡ ok sigs)) ⊎ ((e : ProviderError) × (m ≡ err e))
opens-cases (ok sigs) = inl (sigs, refl)
opens-cases (err e) = inr (e, refl)

-- The chunks up to the first that is marked as the last.
abbrev pub up_to_last : List Chunk → List Chunk
up_to_last [] = []
up_to_last (c ∷ cs) = let more = up_to_last cs in if c.done then c ∷ [] else c ∷ more

forward_all-none : (cs : List Chunk) → forward_all none cs ≡ up_to_last cs
unfolding forward_all
forward_all-none [] = refl
forward_all-none (c ∷ cs) = ground (arith, forward_all-none cs)

take-nil : (n : ℕ) → ◌≡◌ {A = List Chunk} (take n []) []
take-nil zero = refl
take-nil (suc n) = refl

take-if :
    (n : ℕ) (c : Chunk) (b : Bool) (xs ys : List Chunk)
    → xs ≡ take n ys
    → (if b then c ∷ [] else c ∷ xs) ≡ take (suc n) (if b then c ∷ [] else c ∷ ys)
take-if n c true xs ys h = ap (λ zs. c ∷ zs) (sym (take-nil n))
take-if n c false xs ys h = ap (λ zs. c ∷ zs) h

forward_all-some : (n : ℕ) (cs : List Chunk) → forward_all (some n) cs ≡ take n (up_to_last cs)
unfolding forward_all
forward_all-some zero [] = refl
forward_all-some (suc n) [] = refl
forward_all-some zero (c ∷ cs) = refl
forward_all-some (suc n) (c ∷ cs) =
    take-if n c c.done (forward_all (some n) cs) (up_to_last cs) (forward_all-some n cs)

-- One provider of the list delivers the output: all that it sends up to its last chunk, or, where the
-- caller's context ends, the first of these chunks. It was opened, and nobody behind it.
pub record Delivers (ps : List StreamProvider) (out : List Chunk) (opened : List String)
    : Type 0 where
  pub before : List StreamProvider
  pub from : StreamProvider
  pub after : List StreamProvider
  pub sigs : List Signal
  pub splits : ps ≡ before ++ from ∷ after
  pub sends : from.opens ≡ ok sigs
  pub whole : from.stays_for ≡ none → out ≡ up_to_last (chunks_of sigs)
  pub cut : (n : ℕ) → from.stays_for ≡ some n → out ≡ take n (up_to_last (chunks_of sigs))
  pub no_others :
      (k : String)
      → count k opened ≤ count k (stream_names before) + (if from.name == k then 1 else 0)

-- What a committed attempt delivers.
attempt-committed :
    (r : CircuitBreakerRegistry) (p : StreamProvider) (out : List Chunk)
    → (stream_attempt r p).1 ≡ committed out
    → (sigs : List Signal) × (p.opens ≡ ok sigs) × (out ≡ forward_all p.stays_for (chunks_of sigs))
unfolding stream_attempt
attempt-committed r p out h = elim (opens-cases p.opens) [
  | inr (e, o) ↦ ground arith
  | inl (sigs, o) ↦ (
    sigs,
    o,
    ground (arith, ap (forward_all p.stays_for) (await_first_token-Waited sigs).complete),
  )
]

behind :
    (p : StreamProvider) (ps : List StreamProvider) (out : List Chunk) (opened : List String)
    → Delivers ps out opened
    → Delivers (p ∷ ps) out opened × Delivers (p ∷ ps) out (p.name ∷ opened)
behind p ps out opened d = (
  record {
    before = p ∷ d.before;
    from = d.from;
    after = d.after;
    sigs = d.sigs;
    splits = ap (λ l. p ∷ l) d.splits;
    sends = d.sends;
    whole = d.whole;
    cut = d.cut;
    no_others = λ k. omega (arith, d.no_others k);
  },
  record {
    before = p ∷ d.before;
    from = d.from;
    after = d.after;
    sigs = d.sigs;
    splits = ap (λ l. p ∷ l) d.splits;
    sends = d.sends;
    whole = d.whole;
    cut = d.cut;
    no_others = λ k. omega (arith, d.no_others k);
  },
)

attempted-cases :
    (a : StreamAttempted)
    → (a ≡ skipped)
      ⊎ ((out : List Chunk) × (a ≡ committed out))
      ⊎ ((e : ProviderError) × (a ≡ failed e))
attempted-cases skipped = inl refl
attempted-cases (committed out) = inr (inl (out, refl))
attempted-cases (failed e) = inr (inr (e, refl))

loop_empty :
    (r : CircuitBreakerRegistry) (skips : List String) (last : Option ProviderError)
    (out : List Chunk)
    → ¬ ((stream_loop [] r skips last).result ≡ ok out)
unfolding stream_loop
loop_empty r skips last out h = cc

loop_steps :
    (p : StreamProvider) (ps : List StreamProvider) (r : CircuitBreakerRegistry)
    (skips : List String) (last : Option ProviderError)
    → ((stream_attempt r p).1 ≡ skipped
        → stream_loop (p ∷ ps) r skips last
          ≡ stream_loop ps (stream_attempt r p).0 (skips ++ p.name ∷ []) last)
      × ((out : List Chunk)
          → (stream_attempt r p).1 ≡ committed out
          → ((stream_loop (p ∷ ps) r skips last).result ≡ ok out)
            × ((stream_loop (p ∷ ps) r skips last).opened ≡ p.name ∷ []))
      × ((e : ProviderError)
          → (stream_attempt r p).1 ≡ failed e
          → stream_loop (p ∷ ps) r skips last
            ≡ also_opened p.name (stream_loop ps (stream_attempt r p).0 skips (some e)))
unfolding stream_loop
loop_steps p ps r skips last =
    (λ h. ground arith, λ out h. (ground arith, ground arith), λ e h. ground arith)

loop-Delivers :
    (ps : List StreamProvider) (r : CircuitBreakerRegistry) (skips : List String)
    (last : Option ProviderError) (out : List Chunk)
    → (stream_loop ps r skips last).result ≡ ok out
    → Delivers ps out (stream_loop ps r skips last).opened
loop-Delivers [] r skips last out h = absurd (loop_empty r skips last out h)
loop-Delivers (p ∷ ps) r skips last out h = elim (attempted-cases (stream_attempt r p).1) [
  | inl e ↦
      let eq = (loop_steps p ps r skips last).0 e in
      rw eq
        (behind p ps out _
          (loop-Delivers ps (stream_attempt r p).0 (skips ++ p.name ∷ []) last out (rw eq at h))).0
  | inr (inl (got, e)) ↦
      let (sigs, o, w) = attempt-committed r p got e in
      let (res, opened) = (loop_steps p ps r skips last).1 got e in
      let given : out ≡ forward_all p.stays_for (chunks_of sigs) = ok-injective (sym h ∙ res) ∙ w in
      rw opened (record {
        before = [];
        from = p;
        after = ps;
        sigs = sigs;
        splits = refl;
        sends = o;
        whole = λ stays.
            given
            ∙ ap (λ o. forward_all o (chunks_of sigs)) stays
            ∙ forward_all-none (chunks_of sigs);
        cut = λ n stays.
            given
            ∙ ap (λ o. forward_all o (chunks_of sigs)) stays
            ∙ forward_all-some n (chunks_of sigs);
        no_others = λ k. omega arith;
      })
  | inr (inr (x, e)) ↦
      let eq = (loop_steps p ps r skips last).2 x e in
      rw eq
        (behind p ps out _
          (loop-Delivers ps (stream_attempt r p).0 skips (some x) out (rw eq at h))).1
]

-- A stream that starts delivers what one provider sends, from its first chunk to its last; where the
-- caller's context ends before, the chunks that were forwarded until then, and none of them is left
-- out or repeated. No provider behind that one is opened.
pub stream-ok :
    (ps : List StreamProvider) (r : CircuitBreakerRegistry) (out : List Chunk)
    → (stream ps r).result ≡ ok out
    → Delivers ps out (stream ps r).opened
unfolding stream
stream-ok [] r out h = cc
stream-ok (p ∷ ps) r out h = loop-Delivers (p ∷ ps) r [] none out h
