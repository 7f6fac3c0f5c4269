-- ===== src/DataTable/Cells.antt =====
-- web/src/components/data-table/data-table.tsx, data-table-static.tsx and data-table-sizing.tsx: the
-- widths of columns, the tooltip of a cell, the header of a column, the clicks on a row and the toolbar.
-- Classes and the cells' contents are left out.
pub mod Tooltip
use woodgate.Common.{
  ◌==◌, ltb, if◌then◌else◌, is_empty, some_or, trim, Text, codes, text_eq, ℕ, Bool, true, false,
  not, ◌&&◌, ◌||◌, Option, none, some, List, [], ◌∷◌,
}
use woodgate.Common.Number.{max_safe}

-- `DATA_TABLE_DEFAULT_COLUMN`
abbrev pub default_size : ℕ
default_size = 160

abbrev pub default_min_size : ℕ
default_min_size = 72

abbrev pub default_max_size : ℕ
default_max_size = max_safe

-- What the style reads of a column; `after` is `getAfter()`.
pub record SizedColumn : Type 0 where
  pub id : Text
  pub size : ℕ
  pub min_size : Option ℕ
  pub max_size : Option ℕ
  pub after : ℕ

-- `grow` is the share of spare room, over `default_size`.
pub record ColumnStyle : Type 0 where
  pub grow : ℕ
  pub basis : ℕ
  pub margin_left_auto : Bool
  pub min_width : ℕ
  pub max_width : Option ℕ
  pub width : ℕ

unfoldable pub column_style : SizedColumn → ColumnStyle
column_style column =
    let min_size = some_or column.min_size default_min_size in
    let max_size = some_or column.max_size default_max_size in
    record {
      grow = if min_size == max_size then 0 else column.size;
      basis = column.size;
      margin_left_auto = text_eq column.id (codes "actions") && column.after == 0;
      min_width = min_size;
      max_width = if max_size == max_safe then none else some max_size;
      width = column.size;
    }

-- The element of a cell's content, by its widths and its text.
pub record Content : Type 0 where
  pub scroll_width : ℕ
  pub client_width : ℕ
  pub inner_text : Text

pub record CellTooltip : Type 0 where
  pub is_open : Bool
  pub tooltip_text : Text

abbrev pub closed_tooltip : CellTooltip
closed_tooltip = record { is_open = false; tooltip_text = [] }

unfoldable pub has_overflow : Content → Bool
has_overflow root = ltb root.client_width root.scroll_width

abbrev pub shown_text : CellTooltip → Text → CellTooltip
shown_text s t = if is_empty t then s else record { is_open = true; tooltip_text = t }

-- `handleOpenChange`; `content` is the reference to the element.
unfoldable pub handle_open_change :
    (content : Option Content) → CellTooltip → (next_open : Bool) → CellTooltip
unfolding has_overflow
handle_open_change content s false = record s { is_open = false }
handle_open_change none s true = s
handle_open_change (some content) s true =
    if has_overflow content then shown_text s (trim content.inner_text) else s

-- A change that the tooltip asks for, with the cell's content then.
pub record TooltipEvent : Type 0 where
  pub content : Option Content
  pub next_open : Bool

unfoldable pub tooltip_run : CellTooltip → List TooltipEvent → CellTooltip
unfolding handle_open_change
tooltip_run s [] = s
tooltip_run s (event ∷ events) =
    tooltip_run (handle_open_change event.content s event.next_open) events

pub data SortDirection : Type 0 where
  unsorted asc desc : SortDirection

-- The header of a column: `aria-sort`, and a button with an arrow where the column can be sorted.
pub data HeaderLabel : Type 0 where
  no_label : HeaderLabel
  sort_button : SortDirection → HeaderLabel
  plain_label : HeaderLabel

unfoldable pub aria_sort : SortDirection → Text
aria_sort asc = codes "ascending"
aria_sort desc = codes "descending"
aria_sort unsorted = codes "none"

unfoldable pub header_label : (is_placeholder can_sort : Bool) → SortDirection → HeaderLabel
header_label is_placeholder can_sort direction =
    if is_placeholder then no_label else if can_sort then sort_button direction else plain_label

-- A click on a row: `on_control` says that the target lies in a link, a button or a field.
pub record RowClick : Type 0 where
  pub default_prevented : Bool
  pub on_control : Bool
  pub selection : Option Text

-- A selection with text in it.
abbrev pub has_selection : Option Text → Bool
has_selection none = false
has_selection (some t) = not (is_empty t)

-- Whether `onRowClick` is called, where the table has it.
unfoldable pub row_click_opens : RowClick → Bool
row_click_opens click =
    not (click.default_prevented || click.on_control || has_selection click.selection)

unfoldable pub row_key_opens : (on_row : Bool) (key : Text) → Bool
row_key_opens on_row key = on_row && text_eq key (codes "Enter")

-- The row below a row that is expanded.
unfoldable pub has_sub_row : (can_expand is_expanded renders : Bool) → Bool
has_sub_row can_expand is_expanded renders = can_expand && is_expanded && renders

-- The toolbar of controls of type `C`; the first one stands apart.
pub record Toolbar {ℓ} (C : Type ℓ) : Type ℓ where
  pub primary : Option C
  pub secondary : List C
  pub has_actions : Bool

abbrev pub rest_of {ℓ} : {C : Type ℓ} → List C → List C
rest_of [] = []
rest_of (c ∷ cs) = cs

abbrev pub first_of {ℓ} : {C : Type ℓ} → List C → Option C
first_of [] = none
first_of (c ∷ cs) = some c

unfoldable pub toolbar {ℓ} :
    {C : Type ℓ} (controls : List C) (has_toolbar_actions has_export : Bool) → Option (Toolbar C)
toolbar controls has_toolbar_actions has_export =
    let has_actions = has_toolbar_actions || has_export in
    if not (is_empty controls) || has_actions
    then some (record {
      primary = first_of controls;
      secondary = rest_of controls;
      has_actions = has_actions;
    })
    else none
