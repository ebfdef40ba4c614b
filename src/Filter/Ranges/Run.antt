-- ===== src/Filter/Ranges/Run.antt =====
-- A filter that is made from the text of `--frame-num`, run over a trace.
