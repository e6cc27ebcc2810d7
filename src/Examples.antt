-- ===== src/Examples.antt =====
-- Concrete inputs for the theorems, one module for each part of the program.
mod Tree
mod Services
mod Agents
mod Cache
mod Channels
mod Talk
mod Post
mod Full
mod Team
mod Events
mod Turn
mod Confined
mod Command
mod Queue
mod Delegates
mod Streams
mod Usage
mod Directory
mod Remotes
mod Leased
mod Skilled
mod Halted
