-- ===== src/Client/Queues/Names.antt =====
-- The list of names that `MQClient::discover_queues` (src/mqclient.cpp) keeps.
use ibmmq_metrics_exporter.Base.{
  ◌≡◌, refl, false, List, [], ◌∷◌, ◌++◌, is_same, All, All-append, arith,
}
use ibmmq_metrics_exporter.Memory.{Bytes}
use ibmmq_metrics_exporter.Pcf.Fold.{is_empty}
use ibmmq_metrics_exporter.Client.Queues.{is_skipped, is_in, add_queue}

-- A name that is worth watching.
abbrev pub IsKept : Bytes → Type 0
IsKept qname = (is_empty qname ≡ false) × (is_skipped qname ≡ false)

abbrev pub AllDistinct : List Bytes → Type 0
AllDistinct [] = Unit {0}
AllDistinct (q ∷ queues) = (is_in q queues ≡ false) × AllDistinct queues

pub record AreQueues (queues : List Bytes) : Type 0 where
  pub kept : All IsKept queues
  pub distinct : AllDistinct queues

is_same_comm : (xs ys : Bytes) → is_same xs ys ≡ is_same ys xs
is_same_comm [] [] = refl
is_same_comm [] (y ∷ ys) = refl
is_same_comm (x ∷ xs) [] = refl
is_same_comm (x ∷ xs) (y ∷ ys) = ground (arith, is_same_comm xs ys)

is_in-append :
    (q qname : Bytes) (queues : List Bytes)
    → is_in q queues ≡ false
    → is_same qname q ≡ false
    → is_in q (queues ++ qname ∷ []) ≡ false
is_in-append q qname [] h k = ground arith
is_in-append q qname (x ∷ queues) h k = ground (arith, is_in-append q qname queues)

append-AllDistinct :
    (qname : Bytes) (queues : List Bytes)
    → is_in qname queues ≡ false
    → AllDistinct queues
    → AllDistinct (queues ++ qname ∷ [])
append-AllDistinct qname [] h k = (refl, tt)
append-AllDistinct qname (q ∷ queues) h k = (
  is_in-append q qname queues k.0 (ground (arith, is_same_comm q qname)),
  append-AllDistinct qname queues (ground arith) k.1,
)

pub add_queue-AreQueues :
    (qname : Bytes) (queues : List Bytes) → AreQueues queues → AreQueues (add_queue qname queues)
unfolding add_queue
add_queue-AreQueues qname queues h =
    let added : is_empty qname ≡ false
        → is_skipped qname ≡ false
        → is_in qname queues ≡ false
        → AreQueues (queues ++ qname ∷ []) =
      λ e s i. record {
        kept = All-append IsKept queues (qname ∷ []) h.kept ((e, s), tt);
        distinct = append-AllDistinct qname queues i h.distinct;
      } in
    ground (arith, h, added)
