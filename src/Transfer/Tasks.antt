-- ===== src/Transfer/Tasks.antt =====
-- transfer/upload_tasks.go: the manager of async uploads. The mutex makes each critical section one
-- step, which reads the clock once.
--
-- A task is reached by its handle: the map's entry, the goroutine and the watchdog of an upload
-- share one UploadTask object, and a handle has one goroutine, so a change through that pointer is
-- a change of the entry under the handle. Copies (cloneTask) are values here.
pub mod Types
pub mod Slots
pub mod Prune
pub mod Sorting
pub mod Methods
pub mod Worker
pub mod System
pub mod Evicted
pub mod Lifecycle
pub mod Registering
pub mod Steps
pub mod Safety
pub mod Population
pub mod Limits
pub mod Finality
pub mod Once
pub mod Retention
pub mod Listing
