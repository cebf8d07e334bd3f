-- ===== src/Lib.antt =====
-- Everoute: an agent on every host turns security policies and endpoint groups into flow rules.
--
-- The control plane writes three resources: SecurityPolicy, GroupMembers, which lists the endpoints
-- of a group at a revision, and GroupMembersPatch, which moves a group from a revision to the next.
-- The agent keeps GroupMembers and patches in a group cache, turns every rule of a policy into
-- CompleteRules over address blocks, and, for each patch, updates the CompleteRules that use the
-- group and the flow rules that they generate. Port lists become OpenFlow matches of a port and a
-- mask.
--
-- Files and the code they model:
--   Common, Common/*   shared names; maps as association lists, sets of strings, results
--   Text               texts as the code splits and reads them
--   Api                pkg/apis/security/v1alpha1/types.go, pkg/apis/group/v1alpha1/types.go
--   Ports              pkg/agent/controller/policy/policy_controller_helper.go: calPortRangeMask
--   Ports/Scan         processFlattenPorts of the same file
--   Ports/Flatten      FlattenPorts of the same file, UnmarshalPortRange of cache/helper.go
--   Cache              pkg/agent/controller/policy/cache/helper.go and the IPBlockItem of rule.go
--   Cache/Group        cache/group.go: GroupCache, with AddPatch, NextPatch, ApplyPatch and others
--   Cache/Group/Steps  the events of the watches and of the reconciler as a step relation
--   Cache/Rule         cache/rule.go: CompleteRule, with ListRules, ApplyPatch, GetPatchPolicyRules
--   Generator          pkg/controller/policy/group_generator.go: the groups of a policy, and
--   Generator/Reconcile  GroupGenerateReconcile and the event handlers of the same file
--   Reconciler         pkg/agent/controller/policy/policy_controller.go, and IsEnable and ParseIPBlock
--   Reconciler/Complete  completePolicy and getPeersGroupsAndIPBlocks of the same file
--   Reconciler/Sync    compareAndApplyPolicyRulesChanges and syncPolicyRulesUntilSuccess of the same
--                      file, over an interface for the datapath
--   Webhook            pkg/webhook/validates/crd_validate.go and Selector.IsValid of
--                      pkg/labels/selector.go
--   Labels             pkg/labels/labels.go and pkg/labels/selector.go: AsSet and Matches
--   Utils              pkg/utils: EqualIPs of ip.go and EqualStringSlice of utils.go
--   GroupController    pkg/controller/group/group_controller.go: Patches has ToGroupMembersPatch and
--                      ApplyGroupMembersPatches, Select finds members, Reconcile writes them, Handlers
--                      are the events
--   EndpointController pkg/controller/endpoint/endpoint_controller.go and ExternalID of
--                      pkg/controller/types: the interface cache, Status, and Cleaner for the
--                      addresses that end; Mirror and Reached have the events of agents in any order
--   Reconciler/Rounds  ReconcilePatch, ReconcilePolicy and what they call in policy_controller.go
--   GlobalPolicy       pkg/agent/controller/policy/global_policy_controller.go
--   NetworkPolicy      pkg/controller/k8s/network_policy_controller.go
--   PodController      pkg/controller/k8s/pod_controller.go and port_name.go
--   Datapath/Rules     the database of rules of pkg/agent/datapath/multiBridgeDatapath.go
--   Datapath/Rounds    getRoundInfo and persistentRoundInfo of the same file
--   Datapath/Bridge    GetTierTable and the conditions of AddMicroSegmentRule in policyBridge.go
--   Reconciler/Rounds/Watch  the handlers of the watches and the queue of ReconcilePatch
--   Reconciler/Install what processPolicyRuleAdd and processPolicyRuleDelete ask of Datapath/Rules, with
--                      the translation of a rule in policy_controller_helper.go
--   Tests              the theorems at concrete inputs
--
-- A function of the code keeps its name in snake_case; a type keeps its name. A method of an object
-- under a lock is a function from the object to the object. klog.Fatalf and errors are values of a
-- result type; a write through a nil pointer is `none`. The order of a map's entries stands for one
-- of the orders in which Go may iterate.
--
-- Numbers are natural numbers with the wrap-around of uint16 and int32 written out. The loops of
-- calPortRangeMask take fuel: 16 rounds to find a 1 bit, one round more than the ports of the range
-- for the outer loop. The loop of ApplyGroupMembersPatches has one round more than there are patches,
-- and the rounds of ReconcilePatch one round more than the group has patches: a round ends at least
-- one port or one patch, so that this is enough.
--
-- To the comparison of rule lists the datapath is an interface: installing or removing a rule may
-- fail, a call that fails may have had its effect, and no call touches another rule. To the
-- database of rules the switches are one: adding and deleting a flow. A rule that
-- AddMicroSegmentRule accepts (Datapath/Bridge) is taken to be added, with a flow that replaces
-- none: two rules with different IDs do not have one match in one table. The Kubernetes API server
-- is an interface of reads and writes for each controller, and the indexer of client-go is one for
-- the interfaces that agents report. The parser of CIDRs, the difference of networks, the checks of
-- names and label selectors and the text of an intstr.IntOrString are parameters. The attempts that
-- the deadline of syncPolicyRulesUntilSuccess leaves are a number.
--
-- Not modelled: the digest of a rule (SHA-256 of its JSON text) and the name of the agent, which
-- are parameters; locks, logging and Kubernetes I/O; the tables of the bridges and the endpoints of
-- the datapath; the proxy, the monitor, the RPC server and the CNI plugin of the agent; the
-- controllers of the control plane other than those above; the Tower plugin, the commands and
-- generated code.
pub mod Api
pub mod Cache
pub mod Common
pub mod Datapath
pub mod EndpointController
pub mod Generator
pub mod GlobalPolicy
pub mod GroupController
pub mod Labels
pub mod NetworkPolicy
pub mod PodController
pub mod Ports
pub mod Reconciler
pub mod Tests
pub mod Text
pub mod Utils
pub mod Webhook
