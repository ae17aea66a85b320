-- ===== src/Validation/Waiver.antt =====
-- engine/validation/waiver.py: the waiver lane over the annotated draft and the run log.
-- `strip` and `lower` are Python's over code points: `strip` takes off every character that
-- `str.isspace` accepts, and `lower` maps A to Z and the Kelvin sign, which are all that can lower
-- to the letters of the boilerplate words.
pub mod Text
pub mod Approve
pub mod Laws
