-- ===== src/PayloadChain/Tests.antt =====
-- Stores and saves at which the theorems on snapshot payloads are applied.
use anvilkit_plugin_collab_y.Base.{
  ℕ, true, ◌≡◌, ◌≢◌, refl, ◌↔◌, none, some, [], ◌∷◌, String, string_eq, nat_eq,
}
use anvilkit_plugin_collab_y.Base.Dict.{Dict, get, put}
use anvilkit_plugin_collab_y.Base.IdSet.{mem}
use anvilkit_plugin_collab_y.Ir.{
  null, arr, nil, obj, stop, str, Own, Node, leaf, branch, end, more, PageIr, walk,
}
use anvilkit_plugin_collab_y.NativeTree.Diff.{diff_ir_nodes_for_local_save}
use anvilkit_plugin_collab_y.PayloadChain.{
  StoredPayload, full, delta, ok, err, out_of_fuel, build_delta_payload, reconstruct_payload,
  reconstruct, replay,
}
use anvilkit_plugin_collab_y.PayloadChain.Total.{reconstruct_payload-total}
use anvilkit_plugin_collab_y.PayloadChain.Chain.{
  Chain, reconstruct_payload_iff, reconstruct_payload-build_delta_payload,
}
use anvilkit_plugin_collab_y.PayloadChain.Replay.{Detects-exact}
use anvilkit_plugin_collab_y.PayloadChain.Records.{
  delta_record, encode_delta, decode_payload, is_readable, decode_payload-encode_delta,
}

abbrev plain : String → Own
plain id = record {
  id = id;
  kind = "Box";
  slot = none;
  slot_kind = none;
  props = [];
  assets = none;
  meta = none;
}

abbrev page : Node → PageIr
page root = record { version = "1"; root = root; assets = arr nil; metadata = obj stop }

abbrev titled : Own
titled = record (plain "a") { props = ("title", str "x") ∷ [] }

-- `b` is dropped, `c` is new and `a` gets a prop.
abbrev first_page : PageIr
first_page = page (branch (plain "r") (more (leaf (plain "a")) (more (leaf (plain "b")) end)))

abbrev second_page : PageIr
second_page = page (branch (plain "r") (more (leaf (plain "c")) (more (leaf titled) end)))

abbrev one_keyframe : Dict String StoredPayload
one_keyframe = ("s1", full first_page) ∷ []

-- A hash that tells no two contents apart would not do; without cached hashes it is not read.
abbrev no_hash : Own → ℕ
no_hash o = 0

-- A chain that runs in a circle.
abbrev circle : Dict String StoredPayload
circle = ("x", delta "y" [] [] null null) ∷ ("y", delta "x" [] [] null null) ∷ []

reconstruct_payload-total_example : reconstruct_payload circle "x" ≢ err out_of_fuel
reconstruct_payload-total_example = reconstruct_payload-total circle "x"

reconstruct_payload_iff_example :
    (reconstruct_payload one_keyframe "s1" ≡ ok first_page)
    ↔ ((n : ℕ) × Chain (λ k. get k one_keyframe) "s1" n first_page)
reconstruct_payload_iff_example = reconstruct_payload_iff one_keyframe "s1" first_page

reconstruct_payload-build_delta_payload_example :
    let d = diff_ir_nodes_for_local_save no_hash none (some first_page) second_page in
    reconstruct_payload
      (put "s2" (build_delta_payload "s1" second_page d.changed d.removed) one_keyframe)
      "s2"
    ≡ ok second_page
unfolding reconstruct_payload reconstruct replay mem get walk
reconstruct_payload-build_delta_payload_example =
    reconstruct_payload-build_delta_payload no_hash none one_keyframe "s1" "s2" first_page
      second_page refl refl refl refl (refl, (refl, (refl, tt))) (refl, (refl, (refl, tt)))
      (tt, (tt, (tt, tt))) (tt, (tt, (tt, tt))) (Detects-exact no_hash first_page second_page)

decode_payload-encode_delta_example :
    (decode_payload (some (encode_delta "s1" [] ("b" ∷ []) (arr nil) (obj stop)))
      ≡ delta_record (encode_delta "s1" [] ("b" ∷ []) (arr nil) (obj stop)))
    ↔ (is_readable "s1" [] ("b" ∷ []) (arr nil) (obj stop) ≡ true)
decode_payload-encode_delta_example =
    decode_payload-encode_delta "s1" [] ("b" ∷ []) (arr nil) (obj stop)
