-- ===== src/Solver/Pinned.antt =====
-- Pins and the jobs of an installation.
use aept.Base.{
  ◌≡◌, refl, sym, ap, ◌⊎◌, inl, inr, ℕ, Bool, true, false, none, some, List, [], ◌∷◌, arith, ◌==◌,
  ==_iff, any, All, Bool-cases, Option-cases,
}
use mathlib.Core.Path.{subst}
use aept.Text.Strings.{Bytes}
use aept.Pin.{PinEntry, find_pin_version}
use aept.Solver.Jobs.{
  Pool, Job, update_all, lock_name, install_solvable, install_provides, erase_provides, lock_jobs,
  find_target, pinned_target, name_job, install_jobs,
}
use aept.Solver.Newest.{is_among}

abbrev pub is_lock : ℕ → Job → Bool
is_lock id (lock_name i) = i == id
is_lock id update_all = false
is_lock id (install_solvable p) = false
is_lock id (install_provides i) = false
is_lock id (erase_provides i) = false

-- The package of the pin is locked, if the pool holds its name.
abbrev pub IsLocked : Pool → List Job → PinEntry → Type 0
IsLocked pool jobs pin = (id : ℕ) → pool.str2id pin.name ≡ some id → any (is_lock id) jobs ≡ true

-- A solvable of a repository that has the version.
abbrev pub IsTarget : Pool → Bytes → List ℕ → ℕ → Type 0
IsTarget pool version ps p =
    (is_among p ps ≡ true) × (pool.is_installed p ≡ false) × (pool.same (pool.evr p) version ≡ true)

module _ (pool : Pool) where
  lock_jobs-cons :
      (pin : PinEntry) (pins : List PinEntry)
      → ((pool.str2id pin.name ≡ none) × (lock_jobs pool (pin ∷ pins) ≡ lock_jobs pool pins))
        ⊎ ((i : ℕ) × (pool.str2id pin.name ≡ some i)
            × (lock_jobs pool (pin ∷ pins) ≡ lock_name i ∷ lock_jobs pool pins))
  unfolding lock_jobs
  lock_jobs-cons pin pins = elim (Option-cases (pool.str2id pin.name)) [
    | inl gone ↦ inl (gone, rw (gone, lock_jobs) refl)
    | inr (i, there) ↦ inr (i, there, rw (there, lock_jobs) refl)
  ]

  IsLocked-weaken :
      (j : Job) (jobs : List Job) (pins : List PinEntry)
      → All (IsLocked pool jobs) pins
      → All (IsLocked pool (j ∷ jobs)) pins
  IsLocked-weaken j jobs [] h = tt
  IsLocked-weaken j jobs (pin ∷ pins) h =
      (λ id e. (let t = h.0 id e in ground arith), IsLocked-weaken j jobs pins h.1)

  lock_jobs-IsLocked : (pins : List PinEntry) → All (IsLocked pool (lock_jobs pool pins)) pins
  lock_jobs-IsLocked [] = tt
  lock_jobs-IsLocked (pin ∷ pins) = elim (lock_jobs-cons pin pins) [
    | inl (gone, e) ↦
        subst (λ jobs. All (IsLocked pool jobs) (pin ∷ pins)) (sym e)
          ((λ id k. absurd (cc)), lock_jobs-IsLocked pins)
    | inr (i, there, e) ↦
        subst (λ jobs. All (IsLocked pool jobs) (pin ∷ pins)) (sym e)
          (
            (λ id k. (let s : i ≡ id = cc in rw ((==_iff i id).1 s) refl)),
            IsLocked-weaken (lock_name i) (lock_jobs pool pins) pins (lock_jobs-IsLocked pins),
          )
  ]

  -- Where everything is upgraded, each pinned package whose name the pool holds is locked.
  pub install_jobs-IsLocked :
      (pins : List PinEntry) → All (IsLocked pool (install_jobs pool pins [] [])) pins
  unfolding install_jobs
  install_jobs-IsLocked pins =
      IsLocked-weaken update_all (lock_jobs pool pins) pins (lock_jobs-IsLocked pins)

  IsTarget-weaken :
      (version : Bytes) (q : ℕ) (ps : List ℕ) (p : ℕ)
      → IsTarget pool version ps p
      → IsTarget pool version (q ∷ ps) p
  IsTarget-weaken version q ps p h = (let m = h.0 in ground arith, h.1, h.2)

  find_target-IsTarget :
      (version : Bytes) (ps : List ℕ) (q : ℕ)
      → IsTarget pool version ps q
      → (p : ℕ) × (find_target pool version ps ≡ some p) × IsTarget pool version ps p
  unfolding find_target
  find_target-IsTarget version [] q h = absurd (let k = h.0 in cc)
  find_target-IsTarget version (p ∷ ps) q h = elim (Bool-cases (pool.is_installed p)) [
    | inl t ↦
        let other : (p == q) ≡ false = elim (Bool-cases (p == q)) [
          | inl same ↦
              (let e = (==_iff p q).0 same in
                let k = h.1 in let u = ap pool.is_installed e in absurd (cc))
          | inr f ↦ f
        ] in
        let (r, found, is) =
          find_target-IsTarget version ps q (let m = h.0 in ground arith, h.1, h.2) in
        (r, rw (t, find_target) found, IsTarget-weaken version p ps r is)
    | inr f ↦ elim (Bool-cases (pool.same (pool.evr p) version)) [
      | inl good ↦ (p, rw (f, good, find_target) refl, (rw ((==_iff p p).1 refl) refl, f, good))
      | inr bad ↦
          let other : (p == q) ≡ false = elim (Bool-cases (p == q)) [
            | inl same ↦
                (let e = (==_iff p q).0 same in
                  let k = h.2 in let u = ap (λ x. pool.same (pool.evr x) version) e in absurd (cc))
            | inr g ↦ g
          ] in
          let (r, found, is) =
            find_target-IsTarget version ps q (let m = h.0 in ground arith, h.1, h.2) in
          (r, rw (f, bad, find_target) found, IsTarget-weaken version p ps r is)
    ]
  ]

  -- The job for a pinned name is a solvable of a repository that provides it and has the pinned version,
  -- if there is one.
  pub name_job-IsTarget :
      (pins : List PinEntry) (name version : Bytes) (id q : ℕ)
      → find_pin_version pins name ≡ some version
      → pool.str2id name ≡ some id
      → IsTarget pool version (pool.providers id) q
      → (p : ℕ) × (name_job pool pins name ≡ install_solvable p)
        × IsTarget pool version (pool.providers id) p
  unfolding name_job pinned_target
  name_job-IsTarget pins name version id q pinned known h =
      let (p, found, is) = find_target-IsTarget version (pool.providers id) q h in
      let e : pinned_target pool name version ≡ some p = rw (known, pinned_target) found in
      (p, rw (pinned, e, name_job) refl, is)
