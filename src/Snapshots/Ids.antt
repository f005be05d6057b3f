-- ===== src/Snapshots/Ids.antt =====
-- The ids of the valid metadata records, in the list and after a deletion.
use anvilkit_plugin_collab_y.Base.{
  ℕ, zero, suc, ◌≤◌, ◌≡◌, refl, sym, ap, subst, ◌∙◌, inl, inr, false, ◌||◌, Option, none, some,
  List, [], ◌∷◌, length, take, In, String, ◌==◌, string_eq, beq-cases, if◌then◌else◌, arith,
  Option-cases,
}
use anvilkit_plugin_collab_y.Base.Dict.{Dict, keys, del}
use anvilkit_plugin_collab_y.Base.IdSet.{mem, discard, Distinct}
use anvilkit_plugin_collab_y.Ir.{Json}
use anvilkit_plugin_collab_y.Snapshots.Meta.{SnapshotMeta, parse_snapshot_meta}
use anvilkit_plugin_collab_y.Snapshots.Index.{Texts, insert, sort_metas, valid_metas}
use anvilkit_plugin_collab_y.Snapshots.Orphans.{ids}
use anvilkit_plugin_collab_y.Snapshots.Listed.{insert-cases, valid_metas-cases}

pub length-ids : (ms : List SnapshotMeta) → length (ids ms) ≡ length ms
length-ids [] = refl
length-ids (m ∷ ms) = ap suc (length-ids ms)

pub length-take : (n : ℕ) (ms : List SnapshotMeta) → n ≤ length ms → length (take n ms) ≡ n
length-take zero ms h = refl
length-take (suc n) [] h = omega (arith, h)
length-take (suc n) (m ∷ ms) h = ap suc (length-take n ms (omega (arith, h)))

pub mem-ids-take :
    (k : String) (n : ℕ) (ms : List SnapshotMeta)
    → mem k (ids ms) ≡ false
    → mem k (ids (take n ms)) ≡ false
unfolding mem
mem-ids-take k zero ms h = refl
mem-ids-take k (suc n) [] h = refl
mem-ids-take k (suc n) (m ∷ ms) h = ground (arith, mem-ids-take k n ms)

pub take-Distinct :
    (n : ℕ) (ms : List SnapshotMeta) → Distinct (ids ms) → Distinct (ids (take n ms))
take-Distinct zero ms d = tt
take-Distinct (suc n) [] d = tt
take-Distinct (suc n) (m ∷ ms) d = (mem-ids-take m.id n ms d.0, take-Distinct n ms d.1)

pub In-del :
    {V : Type 0} (k : String) (e : String × V) (es : Dict String V) → In e (del k es) → In e es
unfolding del
In-del k e [] h = h
In-del k e ((j, v) ∷ es) h = elim (beq-cases j k) [
  | inl (t, q) ↦ inr (In-del k e es (rw t at h))
  | inr (f, q) ↦ elim (rw f at h) [ inl p ↦ inl p | inr r ↦ inr (In-del k e es r) ]
]

module _ (texts : Texts) where
  -- Each valid record stands under its own id.
  abbrev pub WellKeyed : Dict String (Option Json) → Type 0
  WellKeyed es =
      (k : String) (raw : Option Json) (m : SnapshotMeta)
      → In (k, raw) es
      → parse_snapshot_meta texts.date_ok raw ≡ some m
      → m.id ≡ k

  skipped :
      (j : String) (raw : Option Json) (es : Dict String (Option Json))
      → parse_snapshot_meta texts.date_ok raw ≡ none
      → valid_metas texts ((j, raw) ∷ es) ≡ valid_metas texts es
  unfolding valid_metas
  skipped j raw es g = rw (g, valid_metas) refl

  taken :
      (j : String) (raw : Option Json) (m : SnapshotMeta) (es : Dict String (Option Json))
      → parse_snapshot_meta texts.date_ok raw ≡ some m
      → valid_metas texts ((j, raw) ∷ es) ≡ m ∷ valid_metas texts es
  unfolding valid_metas
  taken j raw m es g = rw (g, valid_metas) refl

  discard-first :
      (i k : String) (xs : List String)
      → discard k (i ∷ xs) ≡ (if i == k then discard k xs else i ∷ discard k xs)
  unfolding discard
  discard-first i k xs = refl

  -- Deleting a record takes its id from the list.
  pub ids-del :
      (k : String) (es : Dict String (Option Json))
      → WellKeyed es
      → ids (valid_metas texts (del k es)) ≡ discard k (ids (valid_metas texts es))
  unfolding del discard valid_metas
  ids-del k [] w = refl
  ids-del k ((j, raw) ∷ es) w =
      let rest = ids-del k es (λ i r m h. w i r m (inr h)) in
      elim (Option-cases (parse_snapshot_meta texts.date_ok raw)) [
        | inl g ↦ elim (beq-cases j k) [
          | inl (t, q) ↦ rw t (rest ∙ ap (λ l. discard k (ids l)) (sym (skipped j raw es g)))
          | inr (f, q) ↦ rw f (
              ap ids (skipped j raw (del k es) g)
              ∙ rest
              ∙ ap (λ l. discard k (ids l)) (sym (skipped j raw es g)))
        ]
        | inr (m, g) ↦
            let same = w j raw m (inl refl) g in
            let split =
              ap (λ l. discard k (ids l)) (taken j raw m es g)
              ∙ discard-first m.id k (ids (valid_metas texts es)) in
            elim (beq-cases j k) [
              | inl (t, q) ↦ rw t (rest ∙ sym (split ∙ rw (ap (λ i. i == k) same ∙ t) refl))
              | inr (f, q) ↦ rw f (
                  ap ids (taken j raw m (del k es) g)
                  ∙ ap (λ l. m.id ∷ l) rest
                  ∙ sym (split ∙ rw (ap (λ i. i == k) same ∙ f) refl))
            ]
      ]

  mem-ids-insert :
      (k : String) (m : SnapshotMeta) (xs : List SnapshotMeta)
      → mem k (ids (insert texts m xs)) ≡ (m.id == k || mem k (ids xs))
  unfolding insert mem
  mem-ids-insert k m [] = refl
  mem-ids-insert k m (x ∷ xs) = elim (insert-cases texts m x xs) [
    | inl (e, g) ↦ ap (λ l. mem k (ids l)) e ∙ ground (arith, mem-ids-insert k m xs)
    | inr e ↦ ap (λ l. mem k (ids l)) e
  ]

  pub mem-ids-sort :
      (k : String) (xs : List SnapshotMeta) → mem k (ids (sort_metas texts xs)) ≡ mem k (ids xs)
  unfolding sort_metas mem
  mem-ids-sort k [] = refl
  mem-ids-sort k (x ∷ xs) =
      mem-ids-insert k x (sort_metas texts xs) ∙ ap (λ b. x.id == k || b) (mem-ids-sort k xs)

  length-insert :
      (m : SnapshotMeta) (xs : List SnapshotMeta) → length (insert texts m xs) ≡ suc (length xs)
  unfolding insert
  length-insert m [] = refl
  length-insert m (x ∷ xs) = elim (insert-cases texts m x xs) [
    | inl (e, g) ↦ ap length e ∙ ap suc (length-insert m xs)
    | inr e ↦ ap length e
  ]

  pub length-sort : (xs : List SnapshotMeta) → length (sort_metas texts xs) ≡ length xs
  unfolding sort_metas
  length-sort [] = refl
  length-sort (x ∷ xs) = length-insert x (sort_metas texts xs) ∙ ap suc (length-sort xs)

  insert-Distinct :
      (m : SnapshotMeta) (xs : List SnapshotMeta)
      → Distinct (ids xs)
      → mem m.id (ids xs) ≡ false
      → Distinct (ids (insert texts m xs))
  unfolding insert mem
  insert-Distinct m [] d h = (refl, tt)
  insert-Distinct m (x ∷ xs) d h = elim (insert-cases texts m x xs) [
    | inl (e, g) ↦
        subst (λ l. Distinct (ids l)) (sym e)
          (
            mem-ids-insert x.id m xs
                ∙ ground
                    (arith, string_eq.same_key_iff x.id m.id, string_eq.same_key_iff m.id x.id),
            insert-Distinct m xs d.1 (ground arith),
          )
    | inr e ↦ subst (λ l. Distinct (ids l)) (sym e) (h, d)
  ]

  pub sort-Distinct :
      (xs : List SnapshotMeta) → Distinct (ids xs) → Distinct (ids (sort_metas texts xs))
  unfolding sort_metas
  sort-Distinct [] d = tt
  sort-Distinct (x ∷ xs) d =
      insert-Distinct x (sort_metas texts xs) (sort-Distinct xs d.1) (mem-ids-sort x.id xs ∙ d.0)

  mem-ids-keys :
      (k : String) (es : Dict String (Option Json))
      → WellKeyed es
      → mem k (keys es) ≡ false
      → mem k (ids (valid_metas texts es)) ≡ false
  unfolding mem valid_metas
  mem-ids-keys k [] w h = refl
  mem-ids-keys k ((j, raw) ∷ es) w h =
      let rest = mem-ids-keys k es (λ i r m q. w i r m (inr q)) (ground arith) in
      elim (valid_metas-cases texts j raw es) [
        | inl (g, e) ↦ ap (λ l. mem k (ids l)) e ∙ rest
        | inr (m, g, e) ↦
            ap (λ l. mem k (ids l)) e
            ∙ subst (λ i. (i == k || mem k (ids (valid_metas texts es))) ≡ false)
                (sym (w j raw m (inl refl) g)) (ground arith)
      ]

  pub valid_metas-Distinct :
      (es : Dict String (Option Json))
      → WellKeyed es
      → Distinct (keys es)
      → Distinct (ids (valid_metas texts es))
  unfolding valid_metas
  valid_metas-Distinct [] w d = tt
  valid_metas-Distinct ((j, raw) ∷ es) w d =
      let rest = valid_metas-Distinct es (λ i r m q. w i r m (inr q)) d.1 in
      elim (valid_metas-cases texts j raw es) [
        | inl (g, e) ↦ subst (λ l. Distinct (ids l)) (sym e) rest
        | inr (m, g, e) ↦
            subst (λ l. Distinct (ids l)) (sym e)
              (
                subst (λ i. mem i (ids (valid_metas texts es)) ≡ false)
                    (sym (w j raw m (inl refl) g))
                    (mem-ids-keys j es (λ i r m q. w i r m (inr q)) d.0),
                rest,
              )
      ]
