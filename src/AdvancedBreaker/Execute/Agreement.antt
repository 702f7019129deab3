-- ===== src/AdvancedBreaker/Execute/Agreement.antt =====
-- Execute against ExecuteWithTimeout, for a request that ends before the timeout.
