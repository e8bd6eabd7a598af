-- ===== src/Kernel.antt =====
-- Source/Kernel: the kernel extension, a virtual host bus adapter with iSCSI sessions behind it.
pub mod Activation
mod Bits
pub mod Client
pub mod Commands
pub mod Completion
pub mod Counting
pub mod Creation
pub mod DataOut
pub mod Dispatch
pub mod Drain
pub mod Kept
pub mod Limits
pub mod Operations
pub mod Parameters
pub mod Present
pub mod Release
pub mod Requests
pub mod Responses
pub mod Slots
pub mod State
pub mod Tags
pub mod TaskQueue
pub mod WellFormed
pub mod Wire
