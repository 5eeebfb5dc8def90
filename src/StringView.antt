-- ===== src/StringView.antt =====
-- src/string_view.h.
pub mod View
pub mod Slices
pub mod Number
