-- ===== src/Js.antt =====
-- The parts of the JavaScript language that the TypeScript code uses: strings, numbers, JSON values.
pub mod Text
pub mod Number
pub mod Float
pub mod Json
pub mod Pattern
pub mod Uri
pub mod Url
