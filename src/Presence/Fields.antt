-- ===== src/Presence/Fields.antt =====
-- What the validation of single fields leaves: numbers within bounds, short names.
use anvilkit_plugin_collab_y.Base.{
  ℕ, zero, suc, ◌≤◌, ◌≡◌, refl, ◌∙◌, subst, inl, inr, Bool, true, false, Option, none, some, List,
  [], ◌∷◌, length, take, keep, every, leb, arith, Bool-cases, Option-cases, length-take-le,
}
use anvilkit_plugin_collab_y.Ir.{Json}
use anvilkit_plugin_collab_y.Ir.Access.{member}
use anvilkit_plugin_collab_y.Presence.{
  Viewport, ◌>>=◌, checked, guarded, number_of, clamped, is_printable, sanitize_units,
  max_display_name_length, validate_presence_viewport, finite_of,
}
use anvilkit_plugin_collab_y.Presence.Doubles.{
  finite, less, clamp_finite_number, zero_double, min_viewport_zoom, max_viewport_zoom,
  max_safe_integer,
}

pub some_inj : {A : Type 0} (a b : A) → some a ≡ some b → a ≡ b
some_inj a b h = cc

pub bind-some :
    {A B : Type 0} (o : Option A) (f : A → Option B) (b : B)
    → (o >>= f) ≡ some b
    → (a : A) × (o ≡ some a) × (f a ≡ some b)
bind-some none f b h = absurd (cc (h))
bind-some (some a) f b h = (a, refl, h)

-- A field that is there went through its validation.
pub checked-some :
    {A : Type 0} (f : Json → Option A) (o : Option Json) (r : Option A) (a : A)
    → checked f o ≡ some r
    → r ≡ some a
    → (v : Json) × (f v ≡ some a)
unfolding checked
checked-some f none r a h q = absurd (cc (h, q))
checked-some f (some v) r a h q = elim (Option-cases (f v)) [
  | inl g ↦ absurd (cc (rw (g, checked) at h))
  | inr (b, g) ↦ (v, g ∙ cc (some_inj (some b) r (rw (g, checked) at h), q))
]

pub guarded-some : {A : Type 0} (b : Bool) (a c : A) → guarded b a ≡ some c → (b ≡ true) × (a ≡ c)
guarded-some true a c h = (refl, some_inj a c h)
guarded-some false a c h = absurd (cc (h))

-- A finite number between two bounds.
pub Within : ℕ → ℕ → ℕ → Type 0
Within low high n = (finite n ≡ true) × (less n low ≡ false) × (less high n ≡ false)

abbrev Bounds : ℕ → ℕ → Type 0
Bounds low high = Within low high low × Within low high high

clamp-Within :
    (value low high n : ℕ)
    → Bounds low high
    → clamp_finite_number value low high ≡ some n
    → Within low high n
unfolding clamp_finite_number Within
clamp-Within value low high n (l, h) e = ground arith

pub clamped-Within :
    (v : Json) (low high n : ℕ) → Bounds low high → clamped low high v ≡ some n → Within low high n
unfolding clamped
clamped-Within v low high n b e = elim (Option-cases (number_of v)) [
  | inl g ↦ absurd (cc (rw (g, clamped) at e))
  | inr (value, g) ↦ clamp-Within value low high n b (rw (g, clamped) at e)
]

zoom-Bounds : Bounds min_viewport_zoom max_viewport_zoom
unfolding Within finite less
zoom-Bounds = ((refl, refl, refl), (refl, refl, refl))

pub count-Bounds : Bounds zero_double max_safe_integer
unfolding Within finite less
count-Bounds = ((refl, refl, refl), (refl, refl, refl))

every-keep : (us : List ℕ) → every is_printable (keep is_printable us) ≡ true
every-keep [] = refl
every-keep (u ∷ us) = ground (arith, every-keep us)

every-take :
    (n : ℕ) (us : List ℕ) → every is_printable us ≡ true → every is_printable (take n us) ≡ true
every-take zero us h = refl
every-take (suc n) [] h = refl
every-take (suc n) (u ∷ us) h = ground (arith, every-take n us)

pub sanitize_units-safe :
    (us : List ℕ)
    → (length (sanitize_units us) ≤ max_display_name_length)
      × (every is_printable (sanitize_units us) ≡ true)
unfolding sanitize_units
sanitize_units-safe us =
    elim (Bool-cases (leb (length (keep is_printable us)) max_display_name_length)) [
      | inl t ↦ rw t (ground arith, every-keep us)
      | inr f ↦ rw f (
        length-take-le max_display_name_length (keep is_printable us),
        every-take max_display_name_length (keep is_printable us) (every-keep us),
      )
    ]

pub viewport-zoom :
    (v : Json) (p : Viewport)
    → validate_presence_viewport v ≡ some p
    → Within min_viewport_zoom max_viewport_zoom p.zoom
unfolding validate_presence_viewport
viewport-zoom v p h =
    let (x, e0, h0) = bind-some (finite_of (member "x" v)) _ p h in
    let (y, e1, h1) = bind-some (finite_of (member "y" v)) _ p h0 in
    let (given, e2, h2) = bind-some (member "zoom" v) _ p h1 in
    let (zoom, e3, h3) = bind-some (clamped min_viewport_zoom max_viewport_zoom given) _ p h2 in
    let (width, e4, h4) =
      bind-some (checked (clamped zero_double max_safe_integer) (member "width" v)) _ p h3 in
    let (height, e5, h5) =
      bind-some (checked (clamped zero_double max_safe_integer) (member "height" v)) _ p h4 in
    subst (λ q. Within min_viewport_zoom max_viewport_zoom q.zoom) (some_inj _ p h5)
      (clamped-Within given min_viewport_zoom max_viewport_zoom zoom zoom-Bounds e3)
