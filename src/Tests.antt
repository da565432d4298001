-- ===== src/Tests.antt =====
-- The theorems at concrete inputs.
mod Bfs
mod Bits
mod Components
mod Edges
mod Graph
mod Sorting
mod Indexes
mod Triangles
mod Updates
mod Vertices
mod Writers
