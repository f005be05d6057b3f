-- ===== src/Metrics/Tests.antt =====
-- Three churn events, of which a snapshot counts the last two.
