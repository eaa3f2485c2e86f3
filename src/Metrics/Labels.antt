-- ===== src/Metrics/Labels.antt =====
-- The labels of a metric (src/metrics_collector.cpp): a `std::map` of strings as a list that is
-- sorted by its keys, so that maps are equal where their lists are.
pub mod Maps
use ibmmq_metrics_exporter.Base.{
  Bool, true, false, ◌&&◌, ◌||◌, List, [], ◌∷◌, ltb, ◌==◌, if◌then◌else◌, is_same, ◌++◌, ◌≡◌, refl,
  arith,
}
use ibmmq_metrics_exporter.Memory.{Bytes}
use ibmmq_metrics_exporter.Config.Records.{MetadataConfig}

abbrev pub Labels : Type 0
Labels = List (Bytes × Bytes)

-- `std::string::operator<`.
abbrev pub precedes : Bytes → Bytes → Bool
precedes s [] = false
precedes [] (d ∷ t) = true
precedes (c ∷ s) (d ∷ t) = let rest = precedes s t in ltb c d || (c == d && rest)

-- `labels[tag] = value`.
abbrev pub set_label : Bytes → Bytes → Labels → Labels
set_label tag value [] = (tag, value) ∷ []
set_label tag value ((k, old) ∷ labels) =
    let rest = set_label tag value labels in
    if is_same k tag
    then (k, value) ∷ labels
    else if precedes tag k
    then (tag, value) ∷ (k, old) ∷ labels
    else (k, old) ∷ rest

-- The map of a list whose keys are different.
abbrev pub map_of : Labels → Labels
map_of [] = []
map_of ((k, v) ∷ pairs) = set_label k v (map_of pairs)

-- The loop of `add_meta_labels` ends with the shorter one of the lists.
abbrev pub set_labels : List Bytes → List Bytes → Labels → Labels
set_labels [] vals labels = labels
set_labels (tag ∷ tags) [] labels = labels
set_labels (tag ∷ tags) (value ∷ vals) labels = set_labels tags vals (set_label tag value labels)

unfoldable pub add_meta_labels : MetadataConfig → Labels → Labels
add_meta_labels metadata labels =
    set_labels metadata.metadata_tags metadata.metadata_values (map_of labels)

abbrev pub is_same_labels : Labels → Labels → Bool
is_same_labels [] [] = true
is_same_labels ((k, v) ∷ labels) ((k', v') ∷ labels') =
    is_same k k' && is_same v v' && is_same_labels labels labels'
is_same_labels labels labels' = false

-- A common prefix does not count.
pub prefixed : (s t u : Bytes) → is_same (s ++ t) (s ++ u) ≡ is_same t u
prefixed [] t u = refl
prefixed (c ∷ s) t u = ground (arith, prefixed s t u)
