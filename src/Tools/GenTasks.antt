-- ===== src/Tools/GenTasks.antt =====
-- src/ark_mcp/tools/gen_task_*.py and _generation_tasks_shared.py: the tools on the tasks of ModelArk.
pub mod Outputs
pub mod Listing
pub mod CancelOrDelete
