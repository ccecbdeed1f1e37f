-- ===== src/Controls.antt =====
-- ui/src/components/ui: the keyboard of two controls, the row of segments (SegmentedControl.tsx) and the
-- list of options (Select.tsx). Focus, markup and placement are not modelled.
pub mod Segmented
pub mod Select
mod Tests
