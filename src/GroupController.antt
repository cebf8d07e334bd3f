-- ===== src/GroupController.antt =====
-- The group controller of pkg/controller/group/group_controller.go: Patches has the functions on
-- lists of members, Select finds the members of a group and the groups of an endpoint, Handlers is
-- what the watches enqueue, and Reconcile is the loop body.
pub mod Handlers
pub mod Patches
pub mod Reconcile
pub mod Select
