-- ===== src/Snapshots/Listed.antt =====
-- What the list of snapshots has after a record was written.
use anvilkit_plugin_collab_y.Base.{
  ◌≡◌, refl, sym, ap, subst, ◌∙◌, ◌≢◌, ◌⊎◌, inl, inr, true, Option, none, some, List, [], ◌∷◌, ◌++◌,
  In, any, All, String, ◌==◌, string_eq, beq_refl, beq-cases, arith, Option-cases, Ordering,
}
use anvilkit_plugin_collab_y.Base.Dict.{Dict, get, put, In-of_get}
use anvilkit_plugin_collab_y.Ir.{Json}
use anvilkit_plugin_collab_y.Snapshots.Meta.{SnapshotMeta, parse_snapshot_meta}
use anvilkit_plugin_collab_y.Snapshots.Index.{
  SharedMap, Texts, compare_snapshot_meta, insert, sort_metas, valid_metas, read_snapshot_metas,
  read_legacy_snapshot_index,
}
use anvilkit_plugin_collab_y.Snapshots.Save.{last_of_list}

ordering_cases : (o : Ordering) → (o ≡ Ordering.gt) ⊎ ((o ≡ Ordering.lt) ⊎ (o ≡ Ordering.eq))
ordering_cases Ordering.gt = inl refl
ordering_cases Ordering.lt = inr (inl refl)
ordering_cases Ordering.eq = inr (inr refl)

some_inj : (a b : SnapshotMeta) → some a ≡ some b → a ≡ b
some_inj a b h = cc

last_cons :
    (y m : SnapshotMeta) (xs : List SnapshotMeta)
    → last_of_list xs ≡ some m
    → last_of_list (y ∷ xs) ≡ some m
last_cons y m [] h = absurd (cc (h))
last_cons y m (x ∷ xs) h = h

any_id : (m : SnapshotMeta) (ms : List SnapshotMeta) → In m ms → any (λ x. x.id == m.id) ms ≡ true
any_id m [] h = absurd h
any_id m (x ∷ ms) (inl e) = rw (ap (λ y. y.id) e, beq_refl m.id) refl
any_id m (x ∷ ms) (inr h) = rw (any_id m ms h) (ground arith)

module _ (texts : Texts) where
  -- Where `insert` puts a record.
  pub insert-cases :
      (m x : SnapshotMeta) (xs : List SnapshotMeta)
      → ((insert texts m (x ∷ xs) ≡ x ∷ insert texts m xs)
          × (compare_snapshot_meta texts m x ≡ Ordering.gt))
        ⊎ (insert texts m (x ∷ xs) ≡ m ∷ x ∷ xs)
  unfolding insert
  insert-cases m x xs = elim (ordering_cases (compare_snapshot_meta texts m x)) [
    | inl g ↦ inl (rw (g, insert) refl, g)
    | inr (inl g) ↦ inr (rw (g, insert) refl)
    | inr (inr g) ↦ inr (rw (g, insert) refl)
  ]

  insert-In_new : (m : SnapshotMeta) (xs : List SnapshotMeta) → In m (insert texts m xs)
  unfolding insert
  insert-In_new m [] = inl refl
  insert-In_new m (x ∷ xs) = elim (insert-cases m x xs) [
    | inl (e, g) ↦ subst (In m) (sym e) (inr (insert-In_new m xs))
    | inr e ↦ subst (In m) (sym e) (inl refl)
  ]

  behind :
      (m y : SnapshotMeta) (xs ys : List SnapshotMeta)
      → In m (y ∷ xs)
      → (In m xs → In m ys)
      → In m (y ∷ ys)
  behind m y xs ys (inl e) f = inl e
  behind m y xs ys (inr h) f = inr (f h)

  insert-In : (m x : SnapshotMeta) (xs : List SnapshotMeta) → In m xs → In m (insert texts x xs)
  insert-In m x [] h = absurd h
  insert-In m x (y ∷ ys) h = elim (insert-cases x y ys) [
    | inl (e, g) ↦
        subst (In m) (sym e) (behind m y ys (insert texts x ys) h (λ r. insert-In m x ys r))
    | inr e ↦ subst (In m) (sym e) (inr h)
  ]

  sort_metas-In : (m : SnapshotMeta) (ms : List SnapshotMeta) → In m ms → In m (sort_metas texts ms)
  unfolding sort_metas
  sort_metas-In m [] h = absurd h
  sort_metas-In m (x ∷ xs) (inl e) =
      subst (λ y. In m (insert texts y (sort_metas texts xs))) (sym e)
        (insert-In_new m (sort_metas texts xs))
  sort_metas-In m (x ∷ xs) (inr h) = insert-In m x (sort_metas texts xs) (sort_metas-In m xs h)

  pub valid_metas-cases :
      (k : String) (raw : Option Json) (es : Dict String (Option Json))
      → ((parse_snapshot_meta texts.date_ok raw ≡ none)
          × (valid_metas texts ((k, raw) ∷ es) ≡ valid_metas texts es))
        ⊎ ((m : SnapshotMeta) × (parse_snapshot_meta texts.date_ok raw ≡ some m)
            × (valid_metas texts ((k, raw) ∷ es) ≡ m ∷ valid_metas texts es))
  unfolding valid_metas
  valid_metas-cases k raw es = elim (Option-cases (parse_snapshot_meta texts.date_ok raw)) [
    | inl g ↦ inl (g, rw (g, valid_metas) refl)
    | inr (m, g) ↦ inr (m, g, rw (g, valid_metas) refl)
  ]

  pub valid_metas-In :
      (k : String) (raw : Option Json) (m : SnapshotMeta) (es : Dict String (Option Json))
      → In (k, raw) es
      → parse_snapshot_meta texts.date_ok raw ≡ some m
      → In m (valid_metas texts es)
  valid_metas-In k raw m [] h p = absurd h
  valid_metas-In k raw m ((j, r) ∷ es) (inl e) p = elim (valid_metas-cases j r es) [
    | inl (g, q) ↦ absurd (cc (ap (λ y. y.1) e))
    | inr (x, g, q) ↦
        subst (In m) (sym q)
          (inl (some_inj x m (sym g ∙ ap (λ y. parse_snapshot_meta texts.date_ok y.1) e ∙ p)))
  ]
  valid_metas-In k raw m ((j, r) ∷ es) (inr h) p = elim (valid_metas-cases j r es) [
    | inl (g, q) ↦ subst (In m) (sym q) (valid_metas-In k raw m es h p)
    | inr (x, g, q) ↦ subst (In m) (sym q) (inr (valid_metas-In k raw m es h p))
  ]

  -- A valid record is listed.
  pub any-read_snapshot_metas :
      (s : SharedMap) (k : String) (raw : Option Json) (m : SnapshotMeta)
      → get k s.metas ≡ some raw
      → parse_snapshot_meta texts.date_ok raw ≡ some m
      → any (λ x. x.id == m.id) (read_snapshot_metas texts s) ≡ true
  unfolding read_snapshot_metas
  any-read_snapshot_metas s k raw m g p =
      from_list (valid_metas texts s.metas)
        (valid_metas-In k raw m s.metas (In-of_get k raw s.metas g) p)
    where
      from_list :
          (ms : List SnapshotMeta)
          → In m ms
          → any
              (λ x. x.id == m.id)
              (elim ms [
                | [] ↦ read_legacy_snapshot_index texts s.legacy_index
                | y ∷ ys ↦ sort_metas texts (y ∷ ys)
              ])
            ≡ true
      from_list [] h = absurd h
      from_list (y ∷ ys) h = any_id m (sort_metas texts (y ∷ ys)) (sort_metas-In m (y ∷ ys) h)

  last-insert :
      (m x : SnapshotMeta) (xs : List SnapshotMeta)
      → last_of_list xs ≡ some m
      → compare_snapshot_meta texts x m ≢ Ordering.gt
      → last_of_list (insert texts x xs) ≡ some m
  last-insert m x [] l c = absurd (cc (l))
  last-insert m x (y ∷ []) l c = elim (insert-cases x y []) [
    | inl (e, g) ↦
        absurd (c (subst (λ z. compare_snapshot_meta texts x z ≡ Ordering.gt) (some_inj y m l) g))
    | inr e ↦ rw (e) l
  ]
  last-insert m x (y ∷ z ∷ zs) l c = elim (insert-cases x y (z ∷ zs)) [
    | inl (e, g) ↦ rw (e) (last_cons y m (insert texts x (z ∷ zs)) (last-insert m x (z ∷ zs) l c))
    | inr e ↦ rw (e) l
  ]

  last-sort_metas :
      (m : SnapshotMeta) (ms : List SnapshotMeta)
      → All (λ x. compare_snapshot_meta texts x m ≢ Ordering.gt) ms
      → last_of_list (sort_metas texts (ms ++ (m ∷ []))) ≡ some m
  unfolding sort_metas insert
  last-sort_metas m [] h = refl
  last-sort_metas m (x ∷ xs) h =
      last-insert m x (sort_metas texts (xs ++ (m ∷ []))) (last-sort_metas m xs h.1) h.0

  pub valid_metas-put :
      (k : String) (raw : Option Json) (m : SnapshotMeta) (es : Dict String (Option Json))
      → get k es ≡ none
      → parse_snapshot_meta texts.date_ok raw ≡ some m
      → valid_metas texts (put k raw es) ≡ valid_metas texts es ++ (m ∷ [])
  unfolding put get valid_metas
  valid_metas-put k raw m [] g p = elim (valid_metas-cases k raw []) [
    | inl (q, e) ↦ absurd (cc (p))
    | inr (x, q, e) ↦ e ∙ cc
  ]
  valid_metas-put k raw m ((j, r) ∷ es) g p = elim (beq-cases j k) [
    | inl (t, q) ↦ absurd (cc (rw t at g))
    | inr (f, q) ↦
        let rest = valid_metas-put k raw m es (rw f at g) p in
        rw f (elim (Option-cases (parse_snapshot_meta texts.date_ok r)) [
          | inl n ↦ rw (n, valid_metas) rest
          | inr (x, n) ↦ rw (n, valid_metas) (ap (λ xs. x ∷ xs) rest)
        ])
  ]

  -- When a record sorts after the other valid ones, it is the last of the list.
  pub last-read_snapshot_metas :
      (s : SharedMap) (ms : List SnapshotMeta) (m : SnapshotMeta)
      → valid_metas texts s.metas ≡ ms ++ (m ∷ [])
      → All (λ x. compare_snapshot_meta texts x m ≢ Ordering.gt) ms
      → last_of_list (read_snapshot_metas texts s) ≡ some m
  unfolding read_snapshot_metas
  last-read_snapshot_metas s [] m e h =
      rw (last_of_list, read_snapshot_metas, e) (last-sort_metas m [] h)
  last-read_snapshot_metas s (x ∷ xs) m e h =
      rw (last_of_list, read_snapshot_metas, e) (last-sort_metas m (x ∷ xs) h)
