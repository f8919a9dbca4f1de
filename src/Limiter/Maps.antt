-- ===== src/Limiter/Maps.antt =====
-- What the loops over the map do to the requests of each IP.
use whatsignal.Base.{
  ℕ, ◌≡◌, refl, List, [], ◌∷◌, none, some, keep, arith, Option-cases, if◌then◌else◌, ◌∙◌, false,
  inl, inr,
}
use whatsignal.Base.Text.{Text, same, same_iff}
use whatsignal.Base.Dict.{
  lookup, insert, lookup-insert, lookup-erase, Distinct, insert-Distinct, erase-Distinct,
}
use whatsignal.Limiter.{live, prune, stamps, refresh, keep_entry, store_valid}

stamps-keep_entry :
    (ip jp : Text) (reqs : List ℕ) (m : List (Text × List ℕ))
    → lookup ip m ≡ none
    → stamps jp (keep_entry ip reqs m) ≡ (if same ip jp then reqs else stamps jp m)
unfolding keep_entry stamps lookup
stamps-keep_entry ip jp [] m h = ground (arith, same_iff ip jp)
stamps-keep_entry ip jp (t ∷ ts) m h = ground (arith, same_iff ip jp)

keep_entry-Distinct :
    (ip : Text) (reqs : List ℕ) (m : List (Text × List ℕ))
    → lookup ip m ≡ none
    → Distinct m
    → Distinct (keep_entry ip reqs m)
unfolding keep_entry
keep_entry-Distinct ip [] m h d = d
keep_entry-Distinct ip (t ∷ ts) m h d = (h, d)

lookup-keep_entry :
    (ip jp : Text) (reqs : List ℕ) (m : List (Text × List ℕ))
    → same ip jp ≡ false
    → lookup jp (keep_entry ip reqs m) ≡ lookup jp m
unfolding keep_entry lookup
lookup-keep_entry ip jp [] m h = refl
lookup-keep_entry ip jp (t ∷ ts) m h = rw h

stamps-store_valid :
    (ip jp : Text) (reqs : List ℕ) (m : List (Text × List ℕ))
    → stamps jp (store_valid ip reqs m) ≡ (if same ip jp then reqs else stamps jp m)
unfolding store_valid stamps
stamps-store_valid ip jp [] m = ground (arith, lookup-erase ip jp m)
stamps-store_valid ip jp (t ∷ ts) m = ground (arith, lookup-insert ip jp (t ∷ ts) m)

stamps-cons :
    (ip jp : Text) (reqs : List ℕ) (m : List (Text × List ℕ))
    → stamps ip ((jp, reqs) ∷ m) ≡ (if same jp ip then reqs else stamps ip m)
unfolding stamps lookup
stamps-cons ip jp reqs m = ground arith

stamps_missing : (ip : Text) (m : List (Text × List ℕ)) → lookup ip m ≡ none → stamps ip m ≡ []
unfolding stamps
stamps_missing ip m e = rw (e, stamps)

stamps_found :
    (ip : Text) (m : List (Text × List ℕ)) {reqs : List ℕ}
    → lookup ip m ≡ some reqs
    → stamps ip m ≡ reqs
unfolding stamps
stamps_found ip m e = rw (e, stamps)

store_valid-Distinct :
    (ip : Text) (reqs : List ℕ) (m : List (Text × List ℕ))
    → Distinct m
    → Distinct (store_valid ip reqs m)
unfolding store_valid
store_valid-Distinct ip [] m d = erase-Distinct ip m d
store_valid-Distinct ip (t ∷ ts) m d = insert-Distinct ip (t ∷ ts) m d

module _ (now window : ℕ) where
  prune-missing :
      (ip : Text) (m : List (Text × List ℕ))
      → lookup ip m ≡ none
      → lookup ip (prune now window m) ≡ none
  unfolding lookup prune
  prune-missing ip [] h = refl
  prune-missing ip ((jp, reqs) ∷ m) h = ground (
    arith,
    prune-missing ip m,
    lookup-keep_entry jp ip (keep (live now window) reqs) (prune now window m),
  )

  pub prune-Distinct : (m : List (Text × List ℕ)) → Distinct m → Distinct (prune now window m)
  unfolding prune
  prune-Distinct [] d = tt
  prune-Distinct ((ip, reqs) ∷ m) (new, d) =
      keep_entry-Distinct ip (keep (live now window) reqs) (prune now window m)
        (prune-missing ip m new) (prune-Distinct m d)

  pub stamps-prune :
      (ip : Text) (m : List (Text × List ℕ))
      → Distinct m
      → stamps ip (prune now window m) ≡ keep (live now window) (stamps ip m)
  unfolding prune
  stamps-prune ip [] d = unfold stamps lookup in refl
  stamps-prune ip ((jp, reqs) ∷ m) (new, d) =
      stamps-keep_entry jp ip (keep (live now window) reqs) (prune now window m)
        (prune-missing jp m new)
      ∙ ground (arith, stamps-prune ip m d, stamps-cons ip jp reqs m)

  refresh_missing :
      (ip : Text) (m : List (Text × List ℕ)) → lookup ip m ≡ none → refresh now window ip m ≡ m
  unfolding refresh
  refresh_missing ip m e = rw (e, refresh)

  refresh_found :
      (ip : Text) (m : List (Text × List ℕ)) {reqs : List ℕ}
      → lookup ip m ≡ some reqs
      → refresh now window ip m ≡ store_valid ip (keep (live now window) reqs) m
  unfolding refresh
  refresh_found ip m e = rw (e, refresh)

  pub stamps-refresh :
      (ip jp : Text) (m : List (Text × List ℕ))
      → stamps jp (refresh now window ip m)
        ≡ (if same ip jp then keep (live now window) (stamps jp m) else stamps jp m)
  stamps-refresh ip jp m = elim (Option-cases (lookup ip m)) [
    | inl e ↦ ground (arith, refresh_missing ip m e, same_iff ip jp, stamps_missing ip m e)
    | inr (reqs, e) ↦ ground (
      arith,
      refresh_found ip m e,
      same_iff ip jp,
      stamps_found ip m e,
      stamps-store_valid ip jp (keep (live now window) reqs) m,
    )
  ]

  pub refresh-Distinct :
      (ip : Text) (m : List (Text × List ℕ)) → Distinct m → Distinct (refresh now window ip m)
  refresh-Distinct ip m d = elim (Option-cases (lookup ip m)) [
    | inl e ↦ rw (refresh_missing ip m e) d
    | inr (reqs, e) ↦
        rw (refresh_found ip m e) (store_valid-Distinct ip (keep (live now window) reqs) m d)
  ]

pub stamps-insert :
    (ip jp : Text) (reqs : List ℕ) (m : List (Text × List ℕ))
    → stamps jp (insert ip reqs m) ≡ (if same ip jp then reqs else stamps jp m)
unfolding stamps
stamps-insert ip jp reqs m = ground (arith, lookup-insert ip jp reqs m)
