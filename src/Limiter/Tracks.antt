-- ===== src/Limiter/Tracks.antt =====
-- What the limiter holds of the requests that it allowed.
use native.Mathlib.Decide.{dec_lt}
use whatsignal.Base.{
  ℕ, ◌≤◌, ◌<◌, ◌≡◌, refl, sym, ap, ◌∙◌, List, [], ◌∷◌, ◌++◌, length, keep, arith, Bool-cases,
  if◌then◌else◌, inl, inr,
}
use whatsignal.Base.Text.{Text, same, same_iff}
use whatsignal.Base.Dict.{insert, Distinct, insert-Distinct}
use whatsignal.Limiter.{RateLimiter, live, stamps, cleanup, tidy, allow_with_info, decide}
use whatsignal.Limiter.Maps.{
  prune-Distinct, stamps-prune, stamps-refresh, refresh-Distinct, stamps-insert,
}
use whatsignal.Limiter.Window.{
  recent, cleaned, allow_with_info-decide, decide_refused, decide_allowed, stamps-refreshed,
}
use whatsignal.Limiter.Kept.{
  Fits, logged, times, keep-live, keep-live_again, keep-append, times-append, length-keep-live,
  cleanup-requests, tidy-cases, length-keep-append,
}

-- The limiter holds, for each IP, the allowed requests that are still in the window.
pub record Tracks (limit window : ℕ) (log : List (Text × ℕ)) (t : ℕ) (rl : RateLimiter)
    : Type 0 where
  pub distinct : Distinct rl.requests
  pub same_limit : rl.limit ≡ limit
  pub same_window : rl.window ≡ window
  pub agree :
      (ip : Text)
      → keep (live t window) (stamps ip rl.requests) ≡ keep (live t window) (times ip log)
  pub bounded : (ip : Text) → length (keep (live t window) (times ip log)) ≤ limit

module _ (limit window : ℕ) {log : List (Text × ℕ)} where
  -- Time passes.
  pub later :
      {t : ℕ} (now : ℕ) {rl : RateLimiter}
      → t ≤ now
      → Tracks limit window log t rl
      → Tracks limit window log now rl
  later {t} now {rl} h k = record {
    distinct = k.distinct;
    same_limit = k.same_limit;
    same_window = k.same_window;
    agree = λ ip.
        sym (keep-live t now window (stamps ip rl.requests) h)
        ∙ ap (keep (live now window)) (k.agree ip)
        ∙ keep-live t now window (times ip log) h;
    bounded = λ ip. omega (arith, k.bounded ip, length-keep-live t now window (times ip log) h);
  }

  pub cleanup-Tracks :
      (now : ℕ) {rl : RateLimiter}
      → Fits now rl
      → Tracks limit window log now rl
      → Tracks limit window log now (cleanup now rl)
  cleanup-Tracks now {rl} fits k = record {
    distinct =
        rw (cleanup-requests now rl fits) (prune-Distinct now rl.window rl.requests k.distinct);
    same_limit = unfold cleanup in k.same_limit;
    same_window = unfold cleanup in k.same_window;
    agree = λ ip.
        rw
          (
            cleanup-requests now rl fits,
            stamps-prune now rl.window ip rl.requests k.distinct,
            k.same_window,
          )
          (keep-live now now window (stamps ip rl.requests) (omega arith) ∙ k.agree ip);
    bounded = k.bounded;
  }

  tidy-Tracks :
      (now : ℕ) {rl : RateLimiter}
      → Fits now rl
      → Tracks limit window log now rl
      → Tracks limit window log now (tidy now rl)
  tidy-Tracks now {rl} fits k =
      tidy-cases now rl (λ r. Tracks limit window log now r) (cleanup-Tracks now fits k) k

  cleaned-Tracks :
      (now : ℕ) (ip : Text) (rl : RateLimiter)
      → Tracks limit window log now (tidy now rl)
      → Tracks limit window log now (cleaned now ip rl)
  unfolding cleaned
  cleaned-Tracks now ip rl k = record {
    distinct = refresh-Distinct now (tidy now rl).window ip (tidy now rl).requests k.distinct;
    same_limit = k.same_limit;
    same_window = k.same_window;
    agree = λ jp.
        ap (keep (live now window))
          (stamps-refresh now (tidy now rl).window ip jp (tidy now rl).requests)
        ∙ kept jp;
    bounded = k.bounded;
  }
    where
      kept :
          (jp : Text)
          → keep (live now window) (
              if same ip jp
              then keep (live now (tidy now rl).window) (stamps jp (tidy now rl).requests)
              else stamps jp (tidy now rl).requests)
            ≡ keep (live now window) (times jp log)
      kept jp = elim (Bool-cases (same ip jp)) [
        | inl e ↦
            rw (e, k.same_window)
              (keep-live now now window (stamps jp (tidy now rl).requests) (omega arith)
                ∙ k.agree jp)
        | inr e ↦ rw e (k.agree jp)
      ]

  -- The limiter and the log after a request was allowed.
  allowed-Tracks :
      (now : ℕ) (ip : Text) (rl : RateLimiter) (current : List ℕ)
      → current ≡ keep (live now window) (stamps ip rl.requests)
      → length current < limit
      → Tracks limit window log now rl
      → Tracks limit window
          (log ++ (ip, now) ∷ [])
          now
          (record rl { requests = insert ip (current ++ now ∷ []) rl.requests })
  allowed-Tracks now ip rl current e room k = record {
    distinct = insert-Distinct ip (current ++ now ∷ []) rl.requests k.distinct;
    same_limit = k.same_limit;
    same_window = k.same_window;
    agree = λ jp.
        rw (stamps-insert ip jp (current ++ now ∷ []) rl.requests, times-append ip jp now log)
          (agreed jp);
    bounded = λ jp. rw (times-append ip jp now log) (fewer jp);
  }
    where
      recorded : keep (live now window) current ≡ keep (live now window) (times ip log)
      recorded = rw e (keep-live now now window (stamps ip rl.requests) (omega arith) ∙ k.agree ip)

      agreed :
          (jp : Text)
          → keep
              (live now window)
              (if same ip jp then current ++ now ∷ [] else stamps jp rl.requests)
            ≡ keep (live now window) (if same ip jp then times jp log ++ now ∷ [] else times jp log)
      agreed jp = elim (Bool-cases (same ip jp)) [
        | inl q ↦
            let ip≡jp : ip ≡ jp = (same_iff ip jp).0 q in
            rw
              (
                q,
                ← ip≡jp,
                keep-append (live now window) current (now ∷ []),
                keep-append (live now window) (times ip log) (now ∷ []),
                recorded,
              )
              refl
        | inr q ↦ rw q (k.agree jp)
      ]

      fewer :
          (jp : Text)
          → length (
              keep
                (live now window)
                (if same ip jp then times jp log ++ now ∷ [] else times jp log))
            ≤ limit
      fewer jp = elim (Bool-cases (same ip jp)) [
        | inl q ↦
            let ip≡jp : ip ≡ jp = (same_iff ip jp).0 q in
            rw (q, ← ip≡jp)
              (omega
                (arith, length-keep-append now window (times ip log), ap length (e ∙ k.agree ip)))
        | inr q ↦ rw q (k.bounded jp)
      ]

  decide-Tracks :
      (now : ℕ) (ip : Text) (rl : RateLimiter) (current : List ℕ)
      → current ≡ keep (live now window) (stamps ip rl.requests)
      → Tracks limit window log now rl
      → Tracks limit window
          (logged (decide now ip rl current).1.allowed ip now log)
          now
          (decide now ip rl current).0
  decide-Tracks now ip rl current e k = elim (dec_lt (length current) rl.limit) [
    | yes room ↦
        let (a, _, c) = decide_allowed now ip rl current room in
        rw (a, c) (allowed-Tracks now ip rl current e (rw (← k.same_limit) room) k)
    | no full ↦ let (a, _, c) = decide_refused now ip rl current (omega arith) in rw (a, c) k
  ]

  pub request-Tracks :
      {t : ℕ} (now : ℕ) (ip : Text) (rl : RateLimiter)
      → t ≤ now
      → Fits now rl
      → Tracks limit window log t rl
      → Tracks limit window
          (logged (allow_with_info now ip rl).1.allowed ip now log)
          now
          (allow_with_info now ip rl).0
  request-Tracks now ip rl h fits k =
      let clean = cleaned-Tracks now ip rl (tidy-Tracks now fits (later now h k)) in
      rw (allow_with_info-decide now ip rl)
        (decide-Tracks now ip (cleaned now ip rl) (recent now ip rl) (recents k.same_window) clean)
    where
      recents :
          rl.window ≡ window
          → recent now ip rl ≡ keep (live now window) (stamps ip (cleaned now ip rl).requests)
      recents e =
          unfold cleaned in
          rw (stamps-refreshed now ip rl)
            (keep-live_again now rl.window window (stamps ip (tidy now rl).requests) e)
