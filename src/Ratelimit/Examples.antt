-- ===== src/Ratelimit/Examples.antt =====
-- A limiter at concrete requests.
use nebula_flow.Prelude.{
  Bool, Result, none, ℕ, String, true, sym, ap, some, ok, err, ok-injective, suc, min, ◌≡◌, refl,
  false, List, [], ◌∷◌, All, string_eq, arith,
}
use nebula_flow.Prelude.Int.{pos}
use nebula_flow.Prelude.Maps.{lookup, IsMap}
use nebula_flow.Ratelimit.Healing.{Laws, expiry_heals}
use nebula_flow.Ratelimit.{verdict, Commands, allow_redis, is_running, new_memory_limiter}
use nebula_flow.Ratelimit.Window.{Request, requests_of, allowed_of, Within, window_limit}

abbrev later : List Request
later =
    record { now = 11; key = "a"; limit = pos 2; window = 60 }
    ∷ record { now = 12; key = "b"; limit = pos 5; window = 60 }
    ∷ record { now = 13; key = "a"; limit = pos 2; window = 60 }
    ∷ []

later-Within : All (Within "a" 2 70) later
later-Within =
    ((omega arith, λ h. refl), ((omega arith, λ h. absurd (cc)), ((omega arith, λ h. refl), tt)))

no_windows : IsMap new_memory_limiter.until
unfolding new_memory_limiter
no_windows = λ k. omega arith

none_runs : is_running 10 (lookup "a" new_memory_limiter.until) ≡ false
unfolding new_memory_limiter lookup
none_runs = refl

window_limit_example :
    allowed_of "a"
      (record { now = 10; key = "a"; limit = pos 2; window = 60 } ∷ later)
      new_memory_limiter
    ≡ min (suc (requests_of "a" later)) 2
window_limit_example =
    window_limit "a" 2 10 60 later new_memory_limiter no_windows (omega arith) (omega arith)
      none_runs later-Within

-- A server with one counter that refuses the first expiry; its state is the counter and whether it
-- has refused one.
abbrev first_refused : ℕ × Bool → (ℕ × Bool) × Result String (Unit {0})
first_refused (n, false) = ((n, true), err "readonly")
first_refused (n, true) = ((n, true), ok tt)

abbrev stubborn : Commands (ℕ × Bool) String
stubborn = record {
  incr = λ key r. ((suc r.0, r.1), ok (suc r.0));
  expire = λ key seconds r. first_refused r;
  del = λ key r. ((0, r.1), ok tt);
}

abbrev key_text : String → ℕ → String
key_text key seconds = key

abbrev the_count : String → ℕ × Bool → ℕ
the_count key r = r.0

stubborn-Laws : Laws stubborn the_count
stubborn-Laws = record {
  incr_adds = λ key r r' n h. sym (ok-injective (ap (λ y. y.1) h));
  del_clears = λ key r r' h. sym (ap (λ y. y.0.0) h);
}

expiry_heals_example :
    let (r', v, reported) = allow_redis stubborn key_text "a" (pos 2) 60 (0, false) in
    (r' ≡ (0, true))
    × (v.allowed ≡ true)
    × (reported ≡ some "readonly")
    × (allow_redis stubborn key_text "a" (pos 2) 60 r' ≡ ((1, true), verdict 1 2 60, none))
expiry_heals_example =
    expiry_heals stubborn key_text the_count "a" 1 60 1 (0, false) (1, false) (1, true) (0, true)
      (1, true) (1, true) "readonly" stubborn-Laws refl refl refl refl refl
