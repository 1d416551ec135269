-- ===== src/HttpStat/Redirects.antt =====
-- cmd/httpstat/main.go: the redirects that visit follows.
use conniver.Prelude.{
  ℕ, zero, suc, ◌+◌, ◌≤◌, ◌<◌, ◌≡◌, refl, Bool, true, false, ◌&&◌, List, [], ◌∷◌, ltb,
  if◌then◌else◌, length, inl, inr, Bool-cases, arith,
}
use conniver.HttpStat.Output.{is_redirect}

abbrev pub max_redirects : ℕ
max_redirects = 10

-- What resp.Location answers.
pub data Location (Url : Type 0) : Type 0 where
  no_location : Location Url
  bad_location : Location Url
  location : Url → Location Url

-- How a run ends: it returns, or log.Fatalf on a bad location or on too many redirects. The last is
-- the end of the fuel.
pub data Ending : Type 0 where
  returned unable too_many out_of_fuel : Ending

-- `respond` is what the server answers to a URL after a number of redirects: a status and a location.
module _ {Url : Type 0} (respond : ℕ → Url → ℕ × Location Url) (follow : Bool) where
  abbrev next_visit : Url → ℕ → Location Url → (Url → List Url × Ending) → List Url × Ending
  next_visit url followed no_location visit_next = (url ∷ [], returned)
  next_visit url followed bad_location visit_next = (url ∷ [], unable)
  next_visit url followed (location loc) visit_next =
      if ltb max_redirects (followed + 1)
      then (url ∷ [], too_many)
      else (url ∷ (visit_next loc).0, (visit_next loc).1)

  -- visit, on fuel: the URLs that are requested, in order, and the ending. `followed` is
  -- redirectsFollowed.
  unfoldable pub visit : ℕ → ℕ → Url → List Url × Ending
  visit zero followed url = ([], out_of_fuel)
  visit (suc fuel) followed url =
      let next = visit fuel (followed + 1) in
      if follow && is_redirect (respond followed url).0
      then next_visit url followed (respond followed url).1 next
      else (url ∷ [], returned)

  abbrev pub is_out_of_fuel : Ending → Bool
  is_out_of_fuel out_of_fuel = true
  is_out_of_fuel _ = false

  -- The run has an end, and its requests are within the bound.
  abbrev IsBounded : ℕ → List Url × Ending → Type 0
  IsBounded followed run =
      (is_out_of_fuel run.1 ≡ false) × (length run.0 + followed ≤ max_redirects + 1)

  next-IsBounded :
      (url : Url) (followed : ℕ) (l : Location Url) (visit_next : Url → List Url × Ending)
      → followed ≤ max_redirects
      → ((loc : Url) → followed + 1 ≤ max_redirects → IsBounded (followed + 1) (visit_next loc))
      → IsBounded followed (next_visit url followed l visit_next)
  next-IsBounded url followed no_location visit_next h k = (refl, omega arith)
  next-IsBounded url followed bad_location visit_next h k = (refl, omega arith)
  next-IsBounded url followed (location loc) visit_next h k =
      elim (Bool-cases (ltb max_redirects (followed + 1))) [
        | inl e ↦ rw e (refl, omega arith)
        | inr e ↦ let (ends, few) = k loc (ground arith) in rw e (ends, omega (arith, few))
      ]

  -- Whatever the server answers, a run ends, after at most eleven requests: the fuel of eleven, and of
  -- one less for each redirect that has been followed, is enough.
  pub visit-ends :
      (fuel followed : ℕ) (url : Url)
      → followed ≤ max_redirects
      → max_redirects < followed + fuel
      → (is_out_of_fuel (visit fuel followed url).1 ≡ false)
        × (length (visit fuel followed url).0 + followed ≤ max_redirects + 1)
  unfolding visit
  visit-ends zero followed url h k = absurd (omega arith)
  visit-ends (suc fuel) followed url h k =
      elim (Bool-cases (follow && is_redirect (respond followed url).0)) [
        | inl e ↦ rw e (
            next-IsBounded url followed (respond followed url).1 (visit fuel (followed + 1)) h
              (λ loc b. visit-ends fuel (followed + 1) loc b (omega arith)))
        | inr e ↦ rw e (refl, omega arith)
      ]
