-- ===== src/Examples/ScanExamples.antt =====
-- Witnesses for SphereWare/SphereWare.c, `BubbleSort`.
use sphere_ware.Base.{◌≤◌, refl, arith}
use sphere_ware.Scan.Sort.{bubble_sort}
use sphere_ware.Scan.Sort.Laws.{Arranges, bubble_sort_lem}
use sphere_ware.Examples.{scan_order}

in_place : Arranges 40 scan_order.r2r_val scan_order scan_order
in_place = record {
  paired = λ k h. refl;
  in_range = λ k h. h;
  distinct = λ a b ha hb e. e;
  place = λ v h. (v, h, refl);
  beyond = λ k h. (refl, refl);
}

bubble_sort_example :
    ((bubble_sort 40 scan_order).r2r_val 3 ≤ (bubble_sort 40 scan_order).r2r_val 17)
    × Arranges 40 scan_order.r2r_val scan_order (bubble_sort 40 scan_order)
bubble_sort_example =
    bubble_sort_lem 40 scan_order.r2r_val scan_order (omega arith) (omega arith) in_place 3 17
      (omega arith) (omega arith)
