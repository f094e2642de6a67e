-- ===== src/FillPlanner/Values.antt =====
-- packages/fill-planner/src/inspect.ts: what a page reader sends, as a value of JavaScript.
use octopus_job_search.Base.{Bool, true, false, not, ◌||◌, [], ◌++◌}
use octopus_job_search.Base.Tests.{if◌then◌else◌}
use octopus_job_search.Base.Text.{Text, codes, text_eq, is_blank}

-- A value of JavaScript, as a content script can send it. A number is given by the text that
-- `String()` makes of it.
mutual
  pub data Value : Type 0 where
    undefined null : Value
    boolean : Bool → Value
    numeral : Text → Value
    string : Text → Value
    array : Items → Value
    object : Entries → Value

  pub data Items : Type 0 where
    nil : Items
    cons : Value → Items → Items

  pub data Entries : Type 0 where
    end : Entries
    entry : Text → Value → Entries → Entries

-- `String(value)`; inside an array, null and undefined are empty, and a comma separates.
unfoldable mutual
  pub to_string : Value → Text
  to_string undefined = codes "undefined"
  to_string null = codes "null"
  to_string (boolean true) = codes "true"
  to_string (boolean false) = codes "false"
  to_string (numeral n) = n
  to_string (string s) = s
  to_string (array items) = join_items items
  to_string (object entries) = codes "[object Object]"

  pub join_items : Items → Text
  join_items nil = []
  join_items (cons v nil) = item_string v
  join_items (cons v (cons w rest)) = item_string v ++ (codes "," ++ join_items (cons w rest))

  pub item_string : Value → Text
  item_string undefined = []
  item_string null = []
  item_string (boolean true) = codes "true"
  item_string (boolean false) = codes "false"
  item_string (numeral n) = n
  item_string (string s) = s
  item_string (array items) = join_items items
  item_string (object entries) = codes "[object Object]"

-- `text(value)`: nothing for null, undefined, false and 0.
unfoldable pub text_of : Value → Text
unfolding to_string
text_of undefined = []
text_of null = []
text_of (boolean false) = []
text_of (numeral n) = if text_eq n (codes "0") then [] else n
text_of v = to_string v

-- `Boolean(value)`.
unfoldable pub truthy : Value → Bool
truthy undefined = false
truthy null = false
truthy (boolean b) = b
truthy (numeral n) = not (text_eq n (codes "0") || text_eq n (codes "NaN"))
truthy (string s) = not (is_blank s)
truthy (array items) = true
truthy (object entries) = true

-- `list(value)`.
unfoldable pub list_of : Value → Items
list_of (array items) = items
list_of _ = nil

-- `row.name`.
unfoldable pub property : Text → Entries → Value
property name end = undefined
property name (entry k v rest) = if text_eq k name then v else property name rest
