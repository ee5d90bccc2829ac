-- ===== src/Contracts.antt =====
-- src/kernel_infra/contracts.py: the task contract. `Values` are the checks of single values, `Spec`
-- the dataclasses, `Stage` and `Task` the parser, and `Sound` what an accepted task satisfies.
pub mod Values
pub mod Spec
pub mod Stage
pub mod Task
pub mod StageSound
pub mod TaskSound
