-- ===== src/ThreadPool/Lost.antt =====
-- A task whose signal is lost: the worker that it wakes leaves.
