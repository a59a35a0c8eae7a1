-- ===== src/Log.antt =====
-- log/: Text is log/encoder/text_encoder.go, which writes a line for every entry, and Query is
-- log/encoder/text_query.go, the search in the daily files of such lines; Fix is
-- log/encoder/fix_encoder.go.
pub mod Fix
pub mod Hook
pub mod Query
pub mod Text
