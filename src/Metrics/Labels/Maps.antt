-- ===== src/Metrics/Labels/Maps.antt =====
-- The labels that `add_meta_labels` makes (src/metrics_collector.cpp), as a map.
use ibmmq_metrics_exporter.Base.{
  ◌≡◌, refl, ap, ◌∙◌, Bool, true, false, List, [], ◌∷◌, Option, none, some, if◌then◌else◌, is_same,
  arith,
}
use mathlib.Core.Path.{fun_ext}
use ibmmq_metrics_exporter.Memory.{Bytes}
use ibmmq_metrics_exporter.Config.Records.{MetadataConfig}
use ibmmq_metrics_exporter.Client.Exclusion.Levels.{is_same-eq, is_same_refl}
use ibmmq_metrics_exporter.Metrics.Labels.{
  Labels, precedes, set_label, map_of, set_labels, add_meta_labels,
}

-- The abstract map: a value, or none, for each name.
abbrev pub View : Type 0
View = Bytes → Option Bytes

-- The first pair of the name in a list.
abbrev pub look_up : Labels → View
look_up [] name = none
look_up ((k, v) ∷ labels) name =
    let rest = look_up labels name in if is_same k name then some v else rest

-- The tags over it, up to the end of the shorter list: a later one wins.
abbrev pub overlaid : List Bytes → List Bytes → View → View
overlaid [] vals view = view
overlaid (tag ∷ tags) [] view = view
overlaid (tag ∷ tags) (value ∷ vals) view =
    overlaid tags vals (λ name. if is_same tag name then some value else view name)

abbrev IsAbove : Bytes → Labels → Type 0
IsAbove k [] = Unit {0}
IsAbove k ((k', v) ∷ labels) = precedes k k' ≡ true

-- The names are in their order, and so are different.
abbrev pub IsSorted : Labels → Type 0
IsSorted [] = Unit {0}
IsSorted ((k, v) ∷ labels) = IsAbove k labels × IsSorted labels

follows : (s t : Bytes) → is_same s t ≡ false → precedes t s ≡ false → precedes s t ≡ true
follows [] [] e h = ground (arith, e)
follows [] (d ∷ t) e h = refl
follows (c ∷ s) [] e h = ground (arith, h)
follows (c ∷ s) (d ∷ t) e h = ground (arith, e, h, follows s t)

set_label-IsAbove :
    (k tag value : Bytes) (labels : Labels)
    → precedes k tag ≡ true
    → IsAbove k labels
    → IsAbove k (set_label tag value labels)
set_label-IsAbove k tag value [] e h = e
set_label-IsAbove k tag value ((k', old) ∷ labels) e h = ground (arith, e, h)

-- The three ways in which `set_label` goes on.
branches-IsSorted :
    (b c : Bool) (x y z : Labels)
    → IsSorted x
    → (c ≡ true → IsSorted y)
    → (b ≡ false → c ≡ false → IsSorted z)
    → IsSorted (if b then x else if c then y else z)
branches-IsSorted true c x y z h k l = h
branches-IsSorted false true x y z h k l = k refl
branches-IsSorted false false x y z h k l = l refl refl

set_label-IsSorted :
    (tag value : Bytes) (labels : Labels) → IsSorted labels → IsSorted (set_label tag value labels)
set_label-IsSorted tag value [] h = (tt, tt)
set_label-IsSorted tag value ((k, old) ∷ labels) (above, h) =
    branches-IsSorted (is_same k tag) (precedes tag k) ((k, value) ∷ labels)
      ((tag, value) ∷ (k, old) ∷ labels) ((k, old) ∷ set_label tag value labels) (above, h)
      (λ before. (before, (above, h)))
      (λ differs later. (
        set_label-IsAbove k tag value labels (follows k tag differs later) above,
        set_label-IsSorted tag value labels h,
      ))

to_tag : (k tag name : Bytes) → is_same k tag ≡ true → is_same k name ≡ is_same tag name
to_tag k tag name e = ap (λ s. is_same s name) (is_same-eq k tag e)

both : (k tag name : Bytes) → is_same k name ≡ true → is_same tag name ≡ true → is_same k tag ≡ true
both k tag name e f = rw (is_same-eq k name e, is_same-eq tag name f) (is_same_refl name)

look_up-set_label :
    (tag value : Bytes) (labels : Labels) (name : Bytes)
    → look_up (set_label tag value labels) name
      ≡ (if is_same tag name then some value else look_up labels name)
look_up-set_label tag value [] name = refl
look_up-set_label tag value ((k, old) ∷ labels) name =
    ground (arith, to_tag k tag name, both k tag name, look_up-set_label tag value labels name)

map_of-IsSorted : (pairs : Labels) → IsSorted (map_of pairs)
map_of-IsSorted [] = tt
map_of-IsSorted ((k, v) ∷ pairs) = set_label-IsSorted k v (map_of pairs) (map_of-IsSorted pairs)

look_up-map_of : (pairs : Labels) (name : Bytes) → look_up (map_of pairs) name ≡ look_up pairs name
look_up-map_of [] name = refl
look_up-map_of ((k, v) ∷ pairs) name =
    ground (arith, look_up-set_label k v (map_of pairs) name, look_up-map_of pairs name)

set_labels-IsSorted :
    (tags vals : List Bytes) (labels : Labels)
    → IsSorted labels
    → IsSorted (set_labels tags vals labels)
set_labels-IsSorted [] vals labels h = h
set_labels-IsSorted (tag ∷ tags) [] labels h = h
set_labels-IsSorted (tag ∷ tags) (value ∷ vals) labels h =
    set_labels-IsSorted tags vals (set_label tag value labels)
      (set_label-IsSorted tag value labels h)

look_up-set_labels :
    (tags vals : List Bytes) (labels : Labels)
    → look_up (set_labels tags vals labels) ≡ overlaid tags vals (look_up labels)
look_up-set_labels [] vals labels = refl
look_up-set_labels (tag ∷ tags) [] labels = refl
look_up-set_labels (tag ∷ tags) (value ∷ vals) labels =
    look_up-set_labels tags vals (set_label tag value labels)
    ∙ ap (overlaid tags vals) (fun_ext (λ name. look_up-set_label tag value labels name))

-- The labels of a gauge are the given ones with the metadata over them: for every name, the value is
-- that of the last tag of the name, among as many tags as there are values, or else that of the
-- first given pair of the name, if there is one. Their names are in order and so are all different,
-- whatever tags are configured.
pub add_meta_labels-overlaid :
    (metadata : MetadataConfig) (pairs : Labels)
    → IsSorted (add_meta_labels metadata pairs)
      × (look_up (add_meta_labels metadata pairs)
          ≡ overlaid metadata.metadata_tags metadata.metadata_values (look_up pairs))
unfolding add_meta_labels
add_meta_labels-overlaid metadata pairs =
    let tags = metadata.metadata_tags in
    let vals = metadata.metadata_values in
    (
      set_labels-IsSorted tags vals (map_of pairs) (map_of-IsSorted pairs),
      look_up-set_labels tags vals (map_of pairs)
          ∙ ap (overlaid tags vals) (fun_ext (look_up-map_of pairs)),
    )
