-- ===== src/Sql/Token.antt =====
-- crates/noedb-lexer/src/token.rs: the tokens. A keyword and an identifier carry the text that the
-- source takes from their span; the end of a list of tokens stands for the token of the end.
use noe_db.Base.{ℕ, Bool, ◌==◌}
use noe_db.Base.Bytes.{Bytes}
use noe_db.Base.Int.{ℤ}
use noe_db.Sql.Ast.{Parts}

pub data Keyword : Type 0 where
  kw_add kw_all kw_alter kw_analyze kw_and kw_any kw_as kw_asc kw_authorization kw_between : Keyword
  kw_begin kw_by kw_case kw_cast kw_check kw_collate kw_column kw_commit kw_constraint : Keyword
  kw_create kw_cross kw_current kw_current_date kw_current_time kw_current_timestamp : Keyword
  kw_current_user kw_default kw_delete kw_desc kw_distinct kw_drop kw_else kw_enable kw_end :
      Keyword
  kw_escape kw_except kw_execute kw_exists kw_false kw_fetch kw_following kw_for kw_foreign :
      Keyword
  kw_from kw_full kw_grant kw_group kw_having kw_if kw_in kw_index kw_inner kw_insert : Keyword
  kw_intersect kw_into kw_is kw_join kw_key kw_left kw_level kw_like kw_limit kw_natural : Keyword
  kw_not kw_null kw_nullif kw_of kw_offset kw_on kw_or kw_order kw_over kw_outer : Keyword
  kw_partition kw_policy kw_preceding kw_prepare kw_primary kw_range kw_recursive : Keyword
  kw_references kw_right kw_role kw_rows kw_rollback kw_row kw_select kw_security kw_set : Keyword
  kw_some kw_table kw_then kw_to kw_true kw_union kw_unbounded kw_unique kw_update kw_user : Keyword
  kw_using kw_values kw_view kw_when kw_where kw_with : Keyword

-- A keyword's place among the keywords.
abbrev pub keyword_index : Keyword → ℕ
keyword_index kw_add = 0
keyword_index kw_all = 1
keyword_index kw_alter = 2
keyword_index kw_analyze = 3
keyword_index kw_and = 4
keyword_index kw_any = 5
keyword_index kw_as = 6
keyword_index kw_asc = 7
keyword_index kw_authorization = 8
keyword_index kw_between = 9
keyword_index kw_begin = 10
keyword_index kw_by = 11
keyword_index kw_case = 12
keyword_index kw_cast = 13
keyword_index kw_check = 14
keyword_index kw_collate = 15
keyword_index kw_column = 16
keyword_index kw_commit = 17
keyword_index kw_constraint = 18
keyword_index kw_create = 19
keyword_index kw_cross = 20
keyword_index kw_current = 21
keyword_index kw_current_date = 22
keyword_index kw_current_time = 23
keyword_index kw_current_timestamp = 24
keyword_index kw_current_user = 25
keyword_index kw_default = 26
keyword_index kw_delete = 27
keyword_index kw_desc = 28
keyword_index kw_distinct = 29
keyword_index kw_drop = 30
keyword_index kw_else = 31
keyword_index kw_enable = 32
keyword_index kw_end = 33
keyword_index kw_escape = 34
keyword_index kw_except = 35
keyword_index kw_execute = 36
keyword_index kw_exists = 37
keyword_index kw_false = 38
keyword_index kw_fetch = 39
keyword_index kw_following = 40
keyword_index kw_for = 41
keyword_index kw_foreign = 42
keyword_index kw_from = 43
keyword_index kw_full = 44
keyword_index kw_grant = 45
keyword_index kw_group = 46
keyword_index kw_having = 47
keyword_index kw_if = 48
keyword_index kw_in = 49
keyword_index kw_index = 50
keyword_index kw_inner = 51
keyword_index kw_insert = 52
keyword_index kw_intersect = 53
keyword_index kw_into = 54
keyword_index kw_is = 55
keyword_index kw_join = 56
keyword_index kw_key = 57
keyword_index kw_left = 58
keyword_index kw_level = 59
keyword_index kw_like = 60
keyword_index kw_limit = 61
keyword_index kw_natural = 62
keyword_index kw_not = 63
keyword_index kw_null = 64
keyword_index kw_nullif = 65
keyword_index kw_of = 66
keyword_index kw_offset = 67
keyword_index kw_on = 68
keyword_index kw_or = 69
keyword_index kw_order = 70
keyword_index kw_over = 71
keyword_index kw_outer = 72
keyword_index kw_partition = 73
keyword_index kw_policy = 74
keyword_index kw_preceding = 75
keyword_index kw_prepare = 76
keyword_index kw_primary = 77
keyword_index kw_range = 78
keyword_index kw_recursive = 79
keyword_index kw_references = 80
keyword_index kw_right = 81
keyword_index kw_role = 82
keyword_index kw_rows = 83
keyword_index kw_rollback = 84
keyword_index kw_row = 85
keyword_index kw_select = 86
keyword_index kw_security = 87
keyword_index kw_set = 88
keyword_index kw_some = 89
keyword_index kw_table = 90
keyword_index kw_then = 91
keyword_index kw_to = 92
keyword_index kw_true = 93
keyword_index kw_union = 94
keyword_index kw_unbounded = 95
keyword_index kw_unique = 96
keyword_index kw_update = 97
keyword_index kw_user = 98
keyword_index kw_using = 99
keyword_index kw_values = 100
keyword_index kw_view = 101
keyword_index kw_when = 102
keyword_index kw_where = 103
keyword_index kw_with = 104

abbrev pub eq_keyword : Keyword → Keyword → Bool
eq_keyword a b = keyword_index a == keyword_index b

pub data Operator : Type 0 where
  sym_eq sym_ne sym_lt sym_gt sym_le sym_ge sym_minus sym_plus sym_div sym_mod sym_distance :
      Operator

pub data Punctuation : Type 0 where
  l_paren r_paren comma semicolon dot star : Punctuation

abbrev pub punctuation_index : Punctuation → ℕ
punctuation_index l_paren = 0
punctuation_index r_paren = 1
punctuation_index comma = 2
punctuation_index semicolon = 3
punctuation_index dot = 4
punctuation_index star = 5

abbrev pub eq_punctuation : Punctuation → Punctuation → Bool
eq_punctuation a b = punctuation_index a == punctuation_index b

module _ (P : Parts) where
  pub data Token : Type 0 where
    keyword : Keyword → Bytes → Token
    ident : Bytes → Token
    quoted_ident : Bytes → Token
    integer_token : ℤ → Token
    float_token : P.Float → Token
    string_token : Bytes → Token
    op_token : Operator → Token
    punct : Punctuation → Token
    parameter : ℕ → Token
