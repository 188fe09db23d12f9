-- ===== src/Data/Group.antt =====
-- Group nodes of src/data.c: objects that point to a list. Creating a list, and the test whether an
-- address is that of one, are arguments; both are functions of src/llist.c.
use libcplus.Common.{
  ℕ, Bool, Option, none, some, List, [], if◌then◌else◌, length, Status, success, fail,
}
use libcplus.Data.{pointer, Value, Data, scalar}
use libcplus.Data.Memory.{Malloc}
use libcplus.Data.Text.{cstr}
use libcplus.Data.New.{Created, no_memory, lost, cplus_data_new_scalar_ex, cplus_data_delete}

named_node : Bool → Malloc → ℕ → List ℕ → Option (List ℕ) → Created
named_node room malloc list name none = lost
named_node room malloc list name (some text) =
    cplus_data_new_scalar_ex room malloc pointer list (length text) (some name)

-- `list` is the new list, or NULL; the name is a C string in its block.
unfoldable pub cplus_data_create_group_node : Bool → Malloc → Option ℕ → List ℕ → Created
unfolding named_node
cplus_data_create_group_node room malloc none name = no_memory
cplus_data_create_group_node room malloc (some list) name =
    named_node room malloc list name (cstr name)

-- The pointer of the node, if it is a list; `none` is the assertion that stops the program.
unfoldable pub group_of : (ℕ → Bool) → Value → Option (Option ℕ)
group_of is_list (scalar pointer w) = some (if is_list w then some w else none)
group_of is_list v = none

unfoldable pub cplus_data_get_group : (ℕ → Bool) → Option Data → Option (Option ℕ)
unfolding group_of
cplus_data_get_group is_list none = some none
cplus_data_get_group is_list (some d) = group_of is_list d.value

-- the result, the list that is deleted, and the blocks that are freed after it
delete_node : Data → Option (Option ℕ) → Option (Status × Option ℕ × List (List ℕ))
delete_node d none = none
delete_node d (some group) = some (success, group, cplus_data_delete d)

unfoldable pub cplus_data_delete_group_node :
    (ℕ → Bool) → Option Data → Option (Status × Option ℕ × List (List ℕ))
unfolding delete_node
cplus_data_delete_group_node is_list none = some (fail, none, [])
cplus_data_delete_group_node is_list (some d) =
    delete_node d (cplus_data_get_group is_list (some d))
