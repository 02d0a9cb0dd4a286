-- ===== src/Sigma/Span.antt =====
-- crates/goliath-sigma/src/span.rs: ranges of bytes of a source.
use goliath_siem.Base.{ℕ, ltb, if◌then◌else◌}

pub record Span : Type 0 where
  pub start : ℕ
  pub end : ℕ

abbrev pub empty_at : ℕ → Span
empty_at offset = record { start = offset; end = offset }

-- `Span::merge`
unfoldable pub merge : Span → Span → Span
merge s t = record {
  start = if ltb s.start t.start then s.start else t.start;
  end = if ltb t.end s.end then s.end else t.end;
}
