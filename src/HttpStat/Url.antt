-- ===== src/HttpStat/Url.antt =====
-- What a URL and the flags are when they come to visit.
use conniver.Prelude.{
  ◌≡◌, refl, sym, ◌∙◌, ap, ◌⊎◌, inl, inr, true, false, ◌&&◌, ◌||◌, Option, none, some, List, [],
  ◌∷◌, ◌++◌, arith, Bool-cases, Option-cases, if◌then◌else◌,
}
use conniver.Prelude.Text.{Text, codes, ◌=ₜ◌, has_prefix, has_suffix, contains}
use conniver.HttpStat.Start.{
  Url, Flags, absolute, with_scheme, default_scheme, parse_url, visits, needs_body, main,
}

-- A colon and two slashes are two slashes as well.
contains-slashes : (s : Text) → contains s (codes "://") ≡ true → contains s (codes "//") ≡ true
contains-slashes [] h = h
contains-slashes (c ∷ []) h = ground arith
contains-slashes (c ∷ d ∷ s) h = ground (arith, contains-slashes (d ∷ s))

prefix-contains : (s t : Text) → has_prefix s t ≡ true → contains s t ≡ true
prefix-contains [] t h = h
prefix-contains (c ∷ s) t h = ground arith

abbrev value_or {ℓ} : {A : Type ℓ} → A → Option A → A
value_or b none = b
value_or b (some a) = a

module _ {Rest : Type 0} (parse : Text → Option (Url Rest)) where
  absolute-contains : (uri : Text) → contains (absolute parse uri) (codes "//") ≡ true
  absolute-contains uri = elim (Bool-cases (contains uri (codes "://"))) [
    | inl e ↦ rw e (contains-slashes uri e)
    | inr e ↦ elim (Bool-cases (has_prefix uri (codes "//"))) [
      | inl p ↦ rw (e, p) (prefix-contains uri (codes "//") p)
      | inr p ↦ rw (e, p) refl
    ]
  ]

  absolute-cases :
      (uri : Text) → (absolute parse uri ≡ uri) ⊎ (absolute parse uri ≡ codes "//" ++ uri)
  absolute-cases uri =
      elim (Bool-cases (contains uri (codes "://") || has_prefix uri (codes "//"))) [
        | inl e ↦ inl (ground arith)
        | inr e ↦ inr (ground arith)
      ]

  -- What was parsed of a text, and the scheme that was chosen.
  abbrev pub IsParsedFrom : Text → Url Rest → Url Rest → Type 0
  IsParsedFrom text v u =
      (parse text ≡ some v)
      × (contains text (codes "//") ≡ true)
      × (u.host ≡ v.host)
      × (u.rest ≡ v.rest)
      × (u.scheme ≡ (if v.scheme =ₜ [] then default_scheme parse v.host else v.scheme))
      × ((u.scheme =ₜ []) ≡ false)

  chosen :
      (v u : Url Rest)
      → with_scheme parse (some v) ≡ some u
      → (u.host ≡ v.host)
        × (u.rest ≡ v.rest)
        × (u.scheme ≡ (if v.scheme =ₜ [] then default_scheme parse v.host else v.scheme))
  chosen v u h = elim (Bool-cases (v.scheme =ₜ [])) [
    | inl e ↦
        let q : record v { scheme = default_scheme parse v.host } ≡ u =
          ap (value_or v) (rw e at h) in
        rw e (sym (ap (λ x. x.host) q), sym (ap (λ x. x.rest) q), sym (ap (λ x. x.scheme) q))
    | inr e ↦
        let q : v ≡ u = ap (value_or v) (rw e at h) in
        rw e (sym (ap (λ x. x.host) q), sym (ap (λ x. x.rest) q), sym (ap (λ x. x.scheme) q))
  ]

  scheme-set :
      (v : Url Rest)
      → ((if v.scheme =ₜ [] then default_scheme parse v.host else v.scheme) =ₜ []) ≡ false
  scheme-set v = elim (Bool-cases (v.scheme =ₜ [])) [
    | inl e ↦ elim (Bool-cases (has_suffix v.host (codes ":80"))) [
      | inl q ↦ rw (e, q) refl
      | inr q ↦ rw (e, q) refl
    ]
    | inr e ↦ rw (e, e) refl
  ]

  of_text :
      (text : Text) (u : Url Rest)
      → contains text (codes "//") ≡ true
      → with_scheme parse (parse text) ≡ some u
      → (v : Url Rest) × IsParsedFrom text v u
  of_text text u h k = elim (Option-cases (parse text)) [
    | inl e ↦ absurd (ground arith)
    | inr (v, e) ↦
        let c = chosen v u (ap (with_scheme parse) (sym e) ∙ k) in
        (v, (e, h, c.0, c.1, c.2, ap (λ x. x =ₜ []) c.2 ∙ scheme-set v))
  ]

  -- Where parseURL answers, url.Parse has answered for the argument, or for the argument behind two
  -- slashes, and in each case for a text with two slashes in it; host and rest are kept, and so is a
  -- scheme. Without one the scheme is http where the host ends in `:80`, and else https, so that no
  -- answer is without a scheme.
  pub parse_url-scheme :
      (uri : Text) (u : Url Rest)
      → parse_url parse uri ≡ some u
      → ((absolute parse uri ≡ uri) ⊎ (absolute parse uri ≡ codes "//" ++ uri))
        × ((v : Url Rest) × IsParsedFrom (absolute parse uri) v u)
  unfolding parse_url
  parse_url-scheme uri u h =
      (absolute-cases uri, of_text (absolute parse uri) u (absolute-contains uri) h)

  -- What main hands to visit: exactly one argument, parsed; not both families; a body for POST and
  -- PUT; and HEAD where only the header is wanted, else the method of the flags.
  pub main-visits :
      (flags : Flags) (args : List Text) (method : Text) (u : Url Rest)
      → main parse flags args ≡ visits method u
      → (flags.show_version ≡ false)
        × ((flags.four_only && flags.six_only) ≡ false)
        × ((a : Text) × (args ≡ a ∷ []) × (parse_url parse a ≡ some u))
        × ((needs_body parse method && flags.post_body =ₜ []) ≡ false)
        × (method ≡ (if flags.only_header then codes "HEAD" else flags.http_method))
  unfolding main
  main-visits flags [] method u h = absurd (ground arith)
  main-visits flags (a ∷ b ∷ args) method u h = absurd (ground arith)
  main-visits flags (a ∷ []) method u h = elim (Option-cases (parse_url parse a)) [
    | inl e ↦ absurd (ground (arith, e))
    | inr (v, e) ↦ (
      ground arith,
      ground arith,
      (a, refl, e ∙ ground (arith, e)),
      ground (arith, e),
      ground (arith, e),
    )
  ]
