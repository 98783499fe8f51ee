-- ===== src/Messages.antt =====
-- ThreadPool/ThreadPool/Common: the messages of the server, in response_common.h.
pub mod GeoHeight
pub mod Polyline
pub mod Polygon
pub mod Link
pub mod Node
pub mod PassInfo
pub mod Polygon3dInfo
pub mod Height3dInfo
pub mod Requests
pub mod Responses
pub mod Load
pub mod Tests
