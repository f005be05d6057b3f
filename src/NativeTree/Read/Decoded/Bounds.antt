-- ===== src/NativeTree/Read/Decoded/Bounds.antt =====
-- Which values pass `checkDecodedProp`, and that its loop has enough rounds.
use anvilkit_plugin_collab_y.Base.{
  ℕ, zero, suc, ◌+◌, ◌≤◌, ◌≡◌, refl, none, [], ◌∷◌, arith, Option-cases, inl, inr,
}
use anvilkit_plugin_collab_y.Ir.{
  Json, null, bool, num, str, arr, obj, Items, nil, cons, Fields, stop, field,
}
use anvilkit_plugin_collab_y.NativeTree.Read.Decoded.{
  PropGuards, Frames, items_length, array_items, push_items, push_fields, push_parts, check_value,
  check_loop, json_size, items_size, fields_size, check_decoded_prop,
}

-- Every value inside stands within the depth, and every array within the length.
abbrev mutual
  pub Fits : PropGuards → ℕ → Json → Type 0
  Fits l d (arr vs) =
      (d ≤ l.max_depth) × (items_length vs ≤ l.max_array_length) × FitsItems l (d + 1) vs
  Fits l d (obj fs) = (d ≤ l.max_depth) × FitsFields l (d + 1) fs
  Fits l d null = d ≤ l.max_depth
  Fits l d (bool b) = d ≤ l.max_depth
  Fits l d (num n) = d ≤ l.max_depth
  Fits l d (str s) = d ≤ l.max_depth

  FitsItems : PropGuards → ℕ → Items → Type 0
  FitsItems l d nil = Unit
  FitsItems l d (cons v vs) = Fits l d v × FitsItems l d vs

  FitsFields : PropGuards → ℕ → Fields → Type 0
  FitsFields l d stop = Unit
  FitsFields l d (field k v fs) = Fits l d v × FitsFields l d fs

abbrev FitsStack : PropGuards → Frames → Type 0
FitsStack l [] = Unit
FitsStack l ((v, d) ∷ s) = Fits l d v × FitsStack l s

abbrev stack_size : Frames → ℕ
stack_size [] = 0
stack_size ((v, d) ∷ s) = json_size v + stack_size s

push_items_size :
    (vs : Items) (d : ℕ) (s : Frames)
    → stack_size (push_items vs d s) ≡ items_size vs + stack_size s
unfolding push_items json_size
push_items_size nil d s = omega arith
push_items_size (cons v vs) d s = omega (arith, push_items_size vs d ((v, d) ∷ s))

push_fields_size :
    (fs : Fields) (d : ℕ) (s : Frames)
    → stack_size (push_fields fs d s) ≡ fields_size fs + stack_size s
unfolding push_fields json_size
push_fields_size stop d s = omega arith
push_fields_size (field k v fs) d s = omega (arith, push_fields_size fs d ((v, d) ∷ s))

push_parts_size :
    (v : Json) (d : ℕ) (s : Frames) → stack_size (push_parts v d s) + 1 ≡ json_size v + stack_size s
unfolding push_parts json_size
push_parts_size null d s = omega arith
push_parts_size (bool b) d s = omega arith
push_parts_size (num n) d s = omega arith
push_parts_size (str t) d s = omega arith
push_parts_size (arr vs) d s = omega (arith, push_items_size vs (d + 1) s)
push_parts_size (obj fs) d s = omega (arith, push_fields_size fs (d + 1) s)

module _ (l : PropGuards) where
  push_items_fits :
      (vs : Items) (d : ℕ) (s : Frames)
      → (FitsStack l (push_items vs d s) → FitsItems l d vs × FitsStack l s)
        × (FitsItems l d vs → FitsStack l s → FitsStack l (push_items vs d s))
  unfolding push_items
  push_items_fits nil d s = (λ h. (tt, h), λ h k. k)
  push_items_fits (cons v vs) d s =
      let r = push_items_fits vs d ((v, d) ∷ s) in
      (λ h. let q = r.0 h in ((q.1.0, q.0), q.1.1), λ (a, b) k. r.1 b (a, k))

  push_fields_fits :
      (fs : Fields) (d : ℕ) (s : Frames)
      → (FitsStack l (push_fields fs d s) → FitsFields l d fs × FitsStack l s)
        × (FitsFields l d fs → FitsStack l s → FitsStack l (push_fields fs d s))
  unfolding push_fields
  push_fields_fits stop d s = (λ h. (tt, h), λ h k. k)
  push_fields_fits (field j v fs) d s =
      let r = push_fields_fits fs d ((v, d) ∷ s) in
      (λ h. let q = r.0 h in ((q.1.0, q.0), q.1.1), λ (a, b) k. r.1 b (a, k))

  -- The tests of a round on the value itself.
  abbrev Within : ℕ → Json → Type 0
  Within d v = (d ≤ l.max_depth) × (array_items v ≤ l.max_array_length)

  round-Fits :
      (v : Json) (d : ℕ) (s : Frames)
      → (Within d v → FitsStack l (push_parts v d s) → Fits l d v × FitsStack l s)
        × (Fits l d v → FitsStack l s → Within d v × FitsStack l (push_parts v d s))
  unfolding push_parts
  round-Fits null d s = (λ w h. (w.0, h), λ f h. ((f, omega arith), h))
  round-Fits (bool b) d s = (λ w h. (w.0, h), λ f h. ((f, omega arith), h))
  round-Fits (num n) d s = (λ w h. (w.0, h), λ f h. ((f, omega arith), h))
  round-Fits (str t) d s = (λ w h. (w.0, h), λ f h. ((f, omega arith), h))
  round-Fits (arr vs) d s =
      let r = push_items_fits vs (d + 1) s in
      (λ w h. let q = r.0 h in ((w.0, w.1, q.0), q.1), λ (a, b, c) h. ((a, b), r.1 c h))
  round-Fits (obj fs) d s =
      let r = push_fields_fits fs (d + 1) s in
      (λ w h. let q = r.0 h in ((w.0, q.0), q.1), λ (a, c) h. ((a, omega arith), r.1 c h))

  check_value-none :
      (n d : ℕ) (v : Json)
      → (check_value l n v d ≡ none → (n ≤ l.max_nodes) × Within d v)
        × (n ≤ l.max_nodes → Within d v → check_value l n v d ≡ none)
  unfolding check_value
  check_value-none n d v = (λ h. ground (arith, h), λ h w. ground (arith, h, w))

  json_size_pos : (v : Json) → 1 ≤ json_size v
  unfolding json_size
  json_size_pos null = omega arith
  json_size_pos (bool b) = omega arith
  json_size_pos (num n) = omega arith
  json_size_pos (str t) = omega arith
  json_size_pos (arr vs) = omega arith
  json_size_pos (obj fs) = omega arith

  check_loop_passes :
      (fuel n : ℕ) (s : Frames)
      → stack_size s ≤ fuel
      → n + stack_size s ≤ l.max_nodes
      → FitsStack l s
      → check_loop fuel l n s ≡ none
  unfolding check_loop
  check_loop_passes zero n s h k f = refl
  check_loop_passes (suc fuel) n [] h k f = refl
  check_loop_passes (suc fuel) n ((v, d) ∷ s) h k (f, fs) =
      let r = (round-Fits v d s).1 f fs in
      rw ((check_value-none (n + 1) d v).1 (omega (arith, k, json_size_pos v)) r.0, check_loop)
        (check_loop_passes fuel (n + 1) (push_parts v d s) (omega (arith, h, push_parts_size v d s))
          (omega (arith, k, push_parts_size v d s)) r.1)

  check_loop_bounds :
      (fuel n : ℕ) (s : Frames)
      → stack_size s ≤ fuel
      → n ≤ l.max_nodes
      → check_loop fuel l n s ≡ none
      → (n + stack_size s ≤ l.max_nodes) × FitsStack l s
  unfolding check_loop
  check_loop_bounds zero n [] h k e = (omega (arith, k), tt)
  check_loop_bounds zero n ((v, d) ∷ s) h k e = absurd (omega (arith, h, json_size_pos v))
  check_loop_bounds (suc fuel) n [] h k e = (omega (arith, k), tt)
  check_loop_bounds (suc fuel) n ((v, d) ∷ s) h k e =
      elim (Option-cases (check_value l (n + 1) v d)) [
        | inr (reason, g) ↦ absurd (cc (rw (g, check_loop) at e))
        | inl g ↦
            let c = (check_value-none (n + 1) d v).0 g in
            let ih =
              check_loop_bounds fuel (n + 1) (push_parts v d s)
                (omega (arith, h, push_parts_size v d s)) c.0 (rw (g, check_loop) at e) in
            (omega (arith, ih.0, push_parts_size v d s), (round-Fits v d s).0 c.1 ih.1)
      ]

  -- A decoded value passes exactly when it has at most `maxNodes` values, none of them deeper than
  -- `maxDepth`, and no array longer than `maxArrayLength`.
  pub check_decoded_prop_iff :
      (v : Json)
      → (check_decoded_prop v l ≡ none → (json_size v ≤ l.max_nodes) × Fits l 0 v)
        × (json_size v ≤ l.max_nodes → Fits l 0 v → check_decoded_prop v l ≡ none)
  unfolding check_decoded_prop
  check_decoded_prop_iff v = (
    λ h.
        let r = check_loop_bounds (json_size v) 0 ((v, 0) ∷ []) (omega arith) (omega arith) h in
        (omega (arith, r.0), r.1.0),
    λ h f. check_loop_passes (json_size v) 0 ((v, 0) ∷ []) (omega arith) (omega (arith, h)) (f, tt),
  )
