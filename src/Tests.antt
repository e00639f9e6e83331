-- ===== src/Tests.antt =====
-- Small runs of the definitions, and the theorems at concrete inputs.
mod Systems
mod Words
mod Kernels
mod BorderMaps
mod Cubes
mod Lanes
mod Residuals
mod Extents
mod Grids
mod Borders
mod Arrays
mod Streams
mod Bounds
mod Outputs
mod Threads
mod Tool
mod Files
mod Banks
mod Scans
