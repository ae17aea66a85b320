-- ===== src/Contracts/Requests.antt =====
-- When two requests have one digest (engine/contracts/gate_key.py).
use rfp_engine.Prelude.{All, refl, [], ap, some, none, ◌∷◌, ◌≡◌, Option, String, List, false, true}
use rfp_engine.Validation.Audit.{
  Json, Items, Fields, null, boolean, text, array, object, nil, cons, end, field,
}
use rfp_engine.Contracts.GateKey.{
  is_empty, prune, prune_items, prune_fields, semantic_fields, field_of, is_semantic, kept,
  canon-kept, key_digest, request_digest,
}

-- A value that says nothing: null, false, the empty text, the empty list, and a dict whose values
-- all say nothing.
mutual
  pub data Blank : Json → Type 0 where
    null_blank : Blank null
    false_blank : Blank (boolean false)
    text_blank : Blank (text "")
    array_blank : Blank (array nil)
    object_blank : (fs : Fields) → AllBlank fs → Blank (object fs)

  pub data AllBlank : Fields → Type 0 where
    end_blank : AllBlank end
    field_blank :
        (k : String) (v : Json) (fs : Fields) → Blank v → AllBlank fs → AllBlank (field k v fs)

-- Two values that differ only in blank entries of dicts, at any depth.
mutual
  pub data Alike : Json → Json → Type 0 where
    same : (v : Json) → Alike v v
    arrays : (vs ws : Items) → AlikeItems vs ws → Alike (array vs) (array ws)
    objects : (fs gs : Fields) → AlikeFields fs gs → Alike (object fs) (object gs)

  pub data AlikeItems : Items → Items → Type 0 where
    nils : AlikeItems nil nil
    conses :
        (v w : Json) (vs ws : Items)
        → Alike v w
        → AlikeItems vs ws
        → AlikeItems (cons v vs) (cons w ws)

  pub data AlikeFields : Fields → Fields → Type 0 where
    ends : AlikeFields end end
    fields :
        (k : String) (v w : Json) (fs gs : Fields)
        → Alike v w
        → AlikeFields fs gs
        → AlikeFields (field k v fs) (field k w gs)
    left_blank :
        (k : String) (v : Json) (fs gs : Fields)
        → Blank v
        → AlikeFields fs gs
        → AlikeFields (field k v fs) gs
    right_blank :
        (k : String) (w : Json) (fs gs : Fields)
        → Blank w
        → AlikeFields fs gs
        → AlikeFields fs (field k w gs)

mutual
  unfolding prune prune_items prune_fields is_empty

  Blank-is_empty : (v : Json) → Blank v → is_empty (prune v) ≡ true
  Blank-is_empty _ null_blank = refl
  Blank-is_empty _ false_blank = refl
  Blank-is_empty _ text_blank = refl
  Blank-is_empty _ array_blank = refl
  Blank-is_empty _ (object_blank fs h) = rw (AllBlank-end fs h) refl

  AllBlank-end : (fs : Fields) → AllBlank fs → prune_fields fs ≡ end
  AllBlank-end _ end_blank = refl
  AllBlank-end _ (field_blank k v fs b h) = rw (Blank-is_empty v b) (AllBlank-end fs h)

mutual
  unfolding prune prune_items prune_fields

  Alike-prune : (v w : Json) → Alike v w → prune v ≡ prune w
  Alike-prune _ _ (same v) = refl
  Alike-prune _ _ (arrays vs ws h) = ap array (AlikeItems-prune vs ws h)
  Alike-prune _ _ (objects fs gs h) = ap object (AlikeFields-prune fs gs h)

  AlikeItems-prune : (vs ws : Items) → AlikeItems vs ws → prune_items vs ≡ prune_items ws
  AlikeItems-prune _ _ nils = refl
  AlikeItems-prune _ _ (conses v w vs ws h hs) =
      rw (Alike-prune v w h, AlikeItems-prune vs ws hs) refl

  AlikeFields-prune : (fs gs : Fields) → AlikeFields fs gs → prune_fields fs ≡ prune_fields gs
  AlikeFields-prune _ _ ends = refl
  AlikeFields-prune _ _ (fields k v w fs gs h hs) =
      rw (Alike-prune v w h, AlikeFields-prune fs gs hs) refl
  AlikeFields-prune _ _ (left_blank k v fs gs b hs) =
      rw (Blank-is_empty v b) (AlikeFields-prune fs gs hs)
  AlikeFields-prune _ _ (right_blank k w fs gs b hs) =
      rw (Blank-is_empty w b) (AlikeFields-prune fs gs hs)

-- A field of two requests: left out of both, alike in both, or blank where the other leaves it out.
pub data AlikeField : Option Json → Option Json → Type 0 where
  both_out : AlikeField none none
  both_in : (v w : Json) → Alike v w → AlikeField (some v) (some w)
  right_out : (v : Json) → Blank v → AlikeField (some v) none
  left_out : (w : Json) → Blank w → AlikeField none (some w)

AlikeField-kept : (o p : Option Json) → AlikeField o p → kept o ≡ kept p
AlikeField-kept _ _ both_out = refl
AlikeField-kept _ _ (both_in v w h) = rw (Alike-prune v w h) refl
AlikeField-kept _ _ (right_out v b) = rw (Blank-is_empty v b) refl
AlikeField-kept _ _ (left_out w b) = rw (Blank-is_empty w b) refl

all_kept :
    (fs gs : Fields) (ns : List String)
    → All (λ n. AlikeField (field_of n fs) (field_of n gs)) ns
    → All (λ n. kept (field_of n fs) ≡ kept (field_of n gs)) ns
all_kept fs gs [] h = tt
all_kept fs gs (n ∷ ns) (h, hs) = (AlikeField-kept _ _ h, all_kept fs gs ns hs)

-- Two requests of semantic fields have one digest if each field is alike in both, up to entries of
-- dicts, at any depth, that are null, false, empty or made of such entries only; or if it is such a
-- value in one and left out of the other.
pub request_digest-Alike :
    (json_dumps : Json → String) (sha256 : String → String) (fs gs : Fields)
    → is_semantic fs ≡ true
    → is_semantic gs ≡ true
    → All (λ n. AlikeField (field_of n fs) (field_of n gs)) semantic_fields
    → request_digest json_dumps sha256 fs ≡ request_digest json_dumps sha256 gs
unfolding request_digest key_digest
request_digest-Alike json_dumps sha256 fs gs known_f known_g alike =
    rw (known_f, known_g, canon-kept semantic_fields fs gs (all_kept fs gs semantic_fields alike))
      refl
