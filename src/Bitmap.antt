-- ===== src/Bitmap.antt =====
-- The bitmaps of src/utils.h. A bitmap's bytes are a list of numbers below 256. What `new` leaves in
-- fresh bytes is not set by the code: it is the parameter `memory`, from the byte's position.
-- A position of an `int` or `size_t` is a number; sums that leave these types are not modelled.
pub mod Atomic
pub mod Interface
pub mod Segmented
