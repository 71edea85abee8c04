-- ===== src/State/Types.antt =====
-- src/kai_daemon/state/_types.py
pub data EpistemicOrigin : Type 0 where
  internal external_search inner_life_pipeline : EpistemicOrigin
