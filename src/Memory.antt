-- ===== src/Memory.antt =====
-- libs/memory and sophon/src/memory: addresses, pages, and the allocator of physical pages.
pub mod Bits
pub mod Powers
pub mod Address
pub mod Page
pub mod Flags
pub mod Entry
pub mod Tables
pub mod Bitmap
pub mod FreeList
pub mod Physical
mod Examples
