-- ===== src/Tests.antt =====
-- The theorems at concrete inputs, and runs of the model.
pub mod Containers
pub mod Items
pub mod Encodings
pub mod Trees
pub mod Objects
pub mod Codec
pub mod Delivered
pub mod Copies
pub mod Exported
pub mod Read
pub mod Printed
pub mod Lives
pub mod Freed
pub mod Connected
pub mod SelfTested
pub mod Frames
pub mod Setters
pub mod Hexadecimal
