-- ===== src/Mining/Algorithms.antt =====
-- mining/algorithms: the algorithms on utility lists, each as its lists, its cuts and its sink put
-- into the search that they share.
pub mod Lists
pub mod Parts
pub mod PoolBodies
pub mod Exact
pub mod Results
pub mod TopK
