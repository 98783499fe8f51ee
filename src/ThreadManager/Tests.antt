-- ===== src/ThreadManager/Tests.antt =====
-- The theorem on ids, applied to two launched threads.
use multi_thread_test.Common.{arith}
use multi_thread_test.ThreadManager.{launch_all}
use multi_thread_test.Lock.{start}
use multi_thread_test.Lock.Invariant.{AreIds}
use multi_thread_test.ThreadManager.Ids.{launch_all-AreIds}

launch_all-AreIds_example : AreIds (start (launch_all 2).ids).threads
launch_all-AreIds_example = launch_all-AreIds 2 (omega arith)
