-- ===== src/Compare/Columns.antt =====
-- The columns of the comparison after any events.
pub mod Ids
use Prim.Native.String.{String, ◌∷◌}
use wai_ai.Common.{
  ℕ, zero, suc, ◌≤◌, ◌<◌, ◌≡◌, ◌≢◌, refl, sym, ap, subst, ◌∙◌, Bool, true, false, not, Option, none,
  some, List, ◌++◌, map, filter, take, drop, length, length-append, length-take, length-drop,
  length-filter, Option-cases, All, All-append, All-take, All-drop, All-filter, either_way, arith,
  Bool-cases, inl, inr, if◌then◌else◌, eq_iff, eq_refl, ◌==◌, ltb, leb,
}
use wai_ai.Common.Decimal.{read_digits}
use wai_ai.Common.Decimal.RoundTrip.{read_digits-prefix}
use wai_ai.Controls.Segmented.{nth}
use wai_ai.Compare.{
  ColumnStatus, without_status, Column, Compare, Props, CompareEvent, Patch, set_model,
  set_temperature, set_max_tokens, set_params_open, add_column, remove_column, duplicate_column,
  change_column, toggle_sync, report_status, type_draft, run_all, stop_all, clear_all, column_id,
  max_columns, min_columns, index_of, patched, patch_column, insert_after, make_column, initial,
  seeded, unused_model, can_run, on_event, on_events,
}
use wai_ai.Compare.Columns.Ids.{
  IsWhole, number_of, number_of-column_id, IsOld, older, new_id, map-HasDistinctIds, map-IsOld,
  length-map, put-HasDistinctIds, put-IsOld, length-put, append-HasDistinctIds,
  others-HasDistinctIds, length-others, patch-same,
}

module _ {Num Format : Type 0} (p : Props Num Format) where
  add-IsWhole :
      (random : String) (s : Compare Num) → IsWhole s → IsWhole (on_event p (add_column random) s).0
  unfolding on_event make_column
  add-IsWhole random s w = elim (Bool-cases (leb max_columns (length s.columns))) [
    | inl e ↦ rw e w
    | inr e ↦
        let new = new_id s.column_seq random s.columns w.old in
        rw e (record {
          least = omega (arith, length-append s.columns, w.least);
          most = ground (
            arith,
            length-append s.columns (
                List.◌∷◌ (make_column p (suc s.column_seq) random (unused_model p s.columns))
                  List.[]),
          );
          distinct = append-HasDistinctIds _ s.columns new w.distinct;
          old =
              All-append (IsOld (suc s.column_seq)) s.columns _ (older s.column_seq s.columns w.old)
                (omega (arith, number_of-column_id (suc s.column_seq) random), tt);
        })
  ]

  remove-IsWhole :
      (id : String) (s : Compare Num) → IsWhole s → IsWhole (on_event p (remove_column id) s).0
  unfolding on_event
  remove-IsWhole id s w = elim (Bool-cases (leb (length s.columns) min_columns)) [
    | inl e ↦ rw e (record { least = w.least; most = w.most; distinct = w.distinct; old = w.old })
    | inr e ↦ rw e (record {
      least = ground (arith, length-others id s.columns w.distinct);
      most = omega (arith, length-filter (λ c. not (c.id == id)) s.columns, w.most);
      distinct = others-HasDistinctIds id s.columns w.distinct;
      old = All-filter (IsOld s.column_seq) (λ c. not (c.id == id)) s.columns w.old;
    })
  ]

  copy-IsWhole :
      (i : ℕ) (c : Column Num) (random : String) (s : Compare Num)
      → leb max_columns (length s.columns) ≡ false
      → IsWhole s
      → IsWhole (record s {
        columns = insert_after i (record c { id = column_id (suc s.column_seq) random }) s.columns;
        column_seq = suc s.column_seq;
      })
  unfolding insert_after
  copy-IsWhole i c random s room w =
      let copy : Column Num = record c { id = column_id (suc s.column_seq) random } in
      let size = length-put (suc i) copy s.columns in
      record {
        least = omega (arith, size, w.least);
        most = ground (arith, size, w.most);
        distinct =
            put-HasDistinctIds (suc i) copy s.columns (new_id s.column_seq random s.columns w.old)
              w.distinct;
        old =
            put-IsOld (suc s.column_seq) (suc i) copy s.columns
              (omega (arith, number_of-column_id (suc s.column_seq) random))
              (older s.column_seq s.columns w.old);
      }

  duplicate-IsWhole :
      (id random : String) (s : Compare Num)
      → IsWhole s
      → IsWhole (on_event p (duplicate_column id random) s).0
  unfolding on_event
  duplicate-IsWhole id random s w = elim (Bool-cases (leb max_columns (length s.columns))) [
    | inl e ↦ rw e w
    | inr e ↦ elim (Option-cases (index_of id s.columns)) [
      | inl o ↦ rw (e, o) w
      | inr (i, o) ↦ elim (Option-cases (nth i s.columns)) [
        | inl q ↦ rw (e, o, q) w
        | inr (c, q) ↦ rw (e, o, q) (copy-IsWhole i c random s e w)
      ]
    ]
  ]

  map-IsWhole :
      (f : Column Num → Column Num)
      → ((c : Column Num) → (f c).id ≡ c.id)
      → (s : Compare Num) → IsWhole s
      → IsWhole (record s { columns = map f s.columns })
  map-IsWhole f same s w = record {
    least = omega (arith, length-map f s.columns, w.least);
    most = omega (arith, length-map f s.columns, w.most);
    distinct = map-HasDistinctIds f same s.columns w.distinct;
    old = map-IsOld f same s.column_seq s.columns w.old;
  }

  -- The statuses and the draft do not matter.
  other-IsWhole :
      (s : Compare Num) (statuses : List (String × ColumnStatus)) (draft : String)
      → IsWhole s
      → IsWhole (record s { statuses = statuses; draft = draft })
  other-IsWhole s statuses draft w = record {
    least = w.least;
    most = w.most;
    distinct = w.distinct;
    old = w.old;
  }

  on_event-IsWhole :
      (e : CompareEvent Num) (s : Compare Num) → IsWhole s → IsWhole (on_event p e s).0
  on_event-IsWhole (add_column random) s w = add-IsWhole random s w
  on_event-IsWhole (remove_column id) s w = remove-IsWhole id s w
  on_event-IsWhole (duplicate_column id random) s w = duplicate-IsWhole id random s w
  on_event-IsWhole (change_column id q) s w =
      unfold on_event in unfold patch_column in map-IsWhole _ (patch-same id q) s w
  on_event-IsWhole (toggle_sync next) s w =
      unfold on_event in
      either_way IsWhole next s (record s { columns = map (seeded p) s.columns }) w
        (map-IsWhole (seeded p) (λ c. unfold seeded in refl) s w)
  on_event-IsWhole (report_status id status) s w =
      unfold on_event in
      other-IsWhole s (List.◌∷◌ (id, status) (without_status id s.statuses)) s.draft w
  on_event-IsWhole (type_draft text) s w = unfold on_event in other-IsWhole s s.statuses text w
  on_event-IsWhole run_all s w = elim (Bool-cases (can_run p s)) [
    | inl e ↦ unfold on_event in rw e (other-IsWhole s s.statuses "" w)
    | inr e ↦ unfold on_event in rw e w
  ]
  on_event-IsWhole stop_all s w = unfold on_event in w
  on_event-IsWhole clear_all s w = unfold on_event in w

  initial-IsWhole : (n : ℕ) (first second : String) → IsWhole (initial p n first second)
  unfolding initial make_column
  initial-IsWhole n first second = record {
    least = omega arith;
    most = omega arith;
    distinct = (
      (
        (λ e. absurd (
            omega (
              arith,
              ap number_of e,
              number_of-column_id (suc n) first,
              number_of-column_id (suc (suc n)) second,
            ))),
        tt,
      ),
      (tt, tt),
    );
    old = (
      omega (arith, number_of-column_id (suc n) first),
      (omega (arith, number_of-column_id (suc (suc n)) second), tt),
    );
  }

module _ {Num Format : Type 0} where
  on_events_keep :
      (es : List (Props Num Format × CompareEvent Num)) (s : Compare Num)
      → IsWhole s
      → IsWhole (on_events es s)
  unfolding on_events
  on_events_keep List.[] s w = w
  on_events_keep (List.◌∷◌ (p, e) es) s w = on_events_keep es _ (on_event-IsWhole p e s w)

  -- Whatever is done, the comparison has two to four columns, and each has an id of its own.
  pub on_events-IsWhole :
      (p : Props Num Format) (n : ℕ) (first second : String)
      (es : List (Props Num Format × CompareEvent Num))
      → IsWhole (on_events es (initial p n first second))
  on_events-IsWhole p n first second es =
      on_events_keep es (initial p n first second) (initial-IsWhole p n first second)
