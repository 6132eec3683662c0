-- ===== src/Hooks/Matcher/Subscribers.antt =====
-- Who subscribes to an event, for crates/forge-store/src/hooks.rs and the filter of the matcher.
use crabforge.Prelude.{
  ◌≡◌, ◌↔◌, ◌⊎◌, refl, ap, ◌∙◌, inl, inr, Bool, true, false, ◌||◌, ◌&&◌, any, List, [], ◌∷◌, ◌++◌,
  map, arith, Bool-cases, Option-cases,
}
use crabforge.Str.{Text, codes, text_eq, strip_suffix, strip_prefix, starts_with}
use crabforge.Str.Laws.{text_eq_iff, strip_prefix-append, strip_prefix_sound}
use crabforge.Str.Suffix.{strip_suffix-append, strip_suffix_sound}
use crabforge.Str.Contains.{starts_with_iff}
use crabforge.Store.Table.{Table, rows_where}
use crabforge.Store.Hooks.{WebhookRecord, prefix_matches, wants}
use crabforge.Hooks.Matcher.{wanting}

-- `issue.*` covers `issue.` with anything behind it.
abbrev IsBelow : Text → Text → Type 0
IsBelow pattern event_type =
    (prefix : Text) × (rest : Text) × (pattern ≡ prefix ++ codes ".*")
    × (event_type ≡ prefix ++ (codes "." ++ rest))

abbrev Covers : Text → Text → Type 0
Covers pattern event_type =
    (pattern ≡ codes "*") ⊎ ((pattern ≡ event_type) ⊎ IsBelow pattern event_type)

-- One of the patterns covers the type.
abbrev SomeCovers : Text → List Text → Type 0
SomeCovers event_type [] = ⊥
SomeCovers event_type (pattern ∷ patterns) =
    Covers pattern event_type ⊎ SomeCovers event_type patterns

-- The webhook is active and one of its patterns covers the type.
abbrev pub IsSubscriber : Text → WebhookRecord → Type 0
IsSubscriber event_type hook = (hook.active ≡ true) × SomeCovers event_type hook.events

or_true : (a b : Bool) → ((a || b) ≡ true) ↔ ((a ≡ true) ⊎ (b ≡ true))
or_true a b = ground arith

below_matches :
    (prefix rest : Text)
    → prefix_matches (prefix ++ codes ".*") (prefix ++ (codes "." ++ rest)) ≡ true
unfolding prefix_matches
below_matches prefix rest =
    rw (strip_suffix-append (codes ".*") prefix, prefix_matches)
      (rw (strip_prefix-append prefix (codes "." ++ rest), prefix_matches)
        ((starts_with_iff (codes ".") (codes "." ++ rest)).1 (rest, refl)))

prefix_matches_iff :
    (pattern event_type : Text)
    → (prefix_matches pattern event_type ≡ true) ↔ IsBelow pattern event_type
unfolding prefix_matches
prefix_matches_iff pattern event_type = (
  λ h. elim (Option-cases (strip_suffix (codes ".*") pattern)) [
    | inl e ↦ absurd (let bad : false ≡ true = rw (e, prefix_matches) at h in cc)
    | inr (prefix, e) ↦ elim (Option-cases (strip_prefix prefix event_type)) [
      | inl e' ↦ absurd (let bad : false ≡ true = rw (e, prefix_matches, e') at h in cc)
      | inr (rest, e') ↦
          let dotted : starts_with (codes ".") rest ≡ true = rw (e, prefix_matches, e') at h in
          let (tail, shape) = (starts_with_iff (codes ".") rest).0 dotted in
          (
            prefix,
            tail,
            strip_suffix_sound (codes ".*") pattern e,
            strip_prefix_sound prefix event_type e' ∙ ap (λ r. prefix ++ r) shape,
          )
    ]
  ],
  λ (prefix, rest, e, e'). rw (e, e') (below_matches prefix rest),
)

Covers-iff :
    (w event_type : Text)
    → ((text_eq w (codes "*") || (text_eq w event_type || prefix_matches w event_type)) ≡ true)
      ↔ Covers w event_type
Covers-iff w event_type =
    let star = text_eq_iff w (codes "*") in
    let same = text_eq_iff w event_type in
    let below = prefix_matches_iff w event_type in
    let outer =
      or_true (text_eq w (codes "*")) (text_eq w event_type || prefix_matches w event_type) in
    let inner = or_true (text_eq w event_type) (prefix_matches w event_type) in
    (
      λ h. elim (outer.0 h) [
        | inl a ↦ inl (star.0 a)
        | inr b ↦ elim (inner.0 b) [ inl c ↦ inr (inl (same.0 c)) | inr d ↦ inr (inr (below.0 d)) ]
      ],
      λ h. elim h [
        | inl a ↦ outer.1 (inl (star.1 a))
        | inr b ↦
            outer.1 (
              inr (elim b [ inl c ↦ inner.1 (inl (same.1 c)) | inr d ↦ inner.1 (inr (below.1 d)) ]))
      ],
    )

SomeCovers-iff :
    (event_type : Text) (events : List Text)
    → (any
          (λ w. text_eq w (codes "*") || (text_eq w event_type || prefix_matches w event_type))
          events
        ≡ true)
      ↔ SomeCovers event_type events
SomeCovers-iff event_type [] = (λ h. cc, λ h. absurd h)
SomeCovers-iff event_type (w ∷ ws) =
    let here = Covers-iff w event_type in
    let there = SomeCovers-iff event_type ws in
    let both =
      or_true (text_eq w (codes "*") || (text_eq w event_type || prefix_matches w event_type)) (
        any (λ w. text_eq w (codes "*") || (text_eq w event_type || prefix_matches w event_type))
          ws) in
    (
      λ h. elim (both.0 h) [ inl a ↦ inl (here.0 a) | inr b ↦ inr (there.0 b) ],
      λ h. both.1 (elim h [ inl a ↦ inl (here.1 a) | inr b ↦ inr (there.1 b) ]),
    )

and_true : (a b : Bool) → ((a && b) ≡ true) ↔ ((a ≡ true) × (b ≡ true))
and_true a b = ground arith

wants_iff :
    (hook : WebhookRecord) (event_type : Text)
    → (wants hook event_type ≡ true) ↔ IsSubscriber event_type hook
unfolding wants
wants_iff hook event_type =
    let patterns = SomeCovers-iff event_type hook.events in
    let both = and_true hook.active (
      any (λ w. text_eq w (codes "*") || (text_eq w event_type || prefix_matches w event_type))
        hook.events) in
    (
      λ h. let (active, some_one) = both.0 h in (active, patterns.0 some_one),
      λ (active, some_one). both.1 (active, patterns.1 some_one),
    )

module _ {A : Type 0} where
  -- `ys` are those elements of `xs`, in their order, of which `P` holds.
  abbrev pub Picks : (A → Type 0) → List A → List A → Type 0
  Picks P [] ys = ys ≡ []
  Picks P (x ∷ xs) ys =
      (P x × ((rest : List A) × (ys ≡ x ∷ rest) × Picks P xs rest)) ⊎ ((¬ P x) × Picks P xs ys)

  pub none-Picks : (P : A → Type 0) (xs : List A) → ((x : A) → ¬ P x) → Picks P xs []
  none-Picks P [] h = refl
  none-Picks P (x ∷ xs) h = inr (h x, none-Picks P xs h)

  pub iff-Picks :
      (P Q : A → Type 0) (xs ys : List A) → ((x : A) → P x ↔ Q x) → Picks P xs ys → Picks Q xs ys
  iff-Picks P Q [] ys h picks = picks
  iff-Picks P Q (x ∷ xs) ys h (inl (held, (rest, e, picks))) =
      inl ((h x).0 held, (rest, e, iff-Picks P Q xs rest h picks))
  iff-Picks P Q (x ∷ xs) ys h (inr (failed, picks)) =
      inr (λ q. failed ((h x).1 q), iff-Picks P Q xs ys h picks)

-- The filters of the query and of the matcher pick the subscribers of the repository.
pub wanting-Picks :
    (event_type repo_id : Text) (t : Table WebhookRecord)
    → Picks
        (λ hook. (hook.repo_id ≡ repo_id) × IsSubscriber event_type hook)
        (map (λ row. row.1) t)
        (wanting event_type (rows_where (λ hook. text_eq hook.repo_id repo_id) t))
unfolding wanting rows_where
wanting-Picks event_type repo_id [] = refl
wanting-Picks event_type repo_id ((k, hook) ∷ t) =
    let rest = wanting event_type (rows_where (λ hook. text_eq hook.repo_id repo_id) t) in
    let later = wanting-Picks event_type repo_id t in
    elim (Bool-cases (text_eq hook.repo_id repo_id)) [
      | inl here ↦ elim (Bool-cases (wants hook event_type)) [
        | inl wanted ↦
            rw (here, wanting, wanted)
              (inl (
                ((text_eq_iff hook.repo_id repo_id).0 here, (wants_iff hook event_type).0 wanted),
                (rest, refl, later),
              ))
        | inr unwanted ↦
            rw (here, wanting, unwanted)
              (inr (λ s. let wanted = (wants_iff hook event_type).1 s.1 in cc, later))
      ]
      | inr elsewhere ↦
          rw elsewhere (inr (λ s. let here = (text_eq_iff hook.repo_id repo_id).1 s.0 in cc, later))
    ]
