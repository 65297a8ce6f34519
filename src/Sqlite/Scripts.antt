-- ===== src/Sqlite/Scripts.antt =====
-- The scripts of the programs on sqlite in 20170808.
use small_project_for_life_w.Base.{List, none, some, [], ◌∷◌}
use small_project_for_life_w.Sqlite.{
  Bytes, Script, Answers, Output, SqlCall, script_main, stdout, stderr,
}

-- the four records
abbrev pub insert_sql : Bytes
insert_sql =
    73 ∷ 78 ∷ 83 ∷ 69 ∷ 82 ∷ 84 ∷ 32 ∷ 73 ∷ 78 ∷ 84 ∷ 79 ∷ 32 ∷ 67 ∷ 79 ∷ 77 ∷ 80 ∷ 65 ∷ 78 ∷ 89
    ∷ 32 ∷ 40 ∷ 73 ∷ 68 ∷ 44 ∷ 78 ∷ 65 ∷ 77 ∷ 69 ∷ 44 ∷ 65 ∷ 71 ∷ 69 ∷ 44 ∷ 65 ∷ 68 ∷ 68 ∷ 82 ∷ 69
    ∷ 83 ∷ 83 ∷ 44 ∷ 83 ∷ 65 ∷ 76 ∷ 65 ∷ 82 ∷ 89 ∷ 41 ∷ 32 ∷ 86 ∷ 65 ∷ 76 ∷ 85 ∷ 69 ∷ 83 ∷ 32 ∷ 40
    ∷ 49 ∷ 44 ∷ 32 ∷ 39 ∷ 80 ∷ 97 ∷ 117 ∷ 108 ∷ 39 ∷ 44 ∷ 32 ∷ 51 ∷ 50 ∷ 44 ∷ 32 ∷ 39 ∷ 67 ∷ 97
    ∷ 108 ∷ 105 ∷ 102 ∷ 111 ∷ 114 ∷ 110 ∷ 105 ∷ 97 ∷ 39 ∷ 44 ∷ 32 ∷ 50 ∷ 48 ∷ 48 ∷ 48 ∷ 48 ∷ 46 ∷ 48
    ∷ 48 ∷ 32 ∷ 41 ∷ 59 ∷ 32 ∷ 73 ∷ 78 ∷ 83 ∷ 69 ∷ 82 ∷ 84 ∷ 32 ∷ 73 ∷ 78 ∷ 84 ∷ 79 ∷ 32 ∷ 67 ∷ 79
    ∷ 77 ∷ 80 ∷ 65 ∷ 78 ∷ 89 ∷ 32 ∷ 40 ∷ 73 ∷ 68 ∷ 44 ∷ 78 ∷ 65 ∷ 77 ∷ 69 ∷ 44 ∷ 65 ∷ 71 ∷ 69 ∷ 44
    ∷ 65 ∷ 68 ∷ 68 ∷ 82 ∷ 69 ∷ 83 ∷ 83 ∷ 44 ∷ 83 ∷ 65 ∷ 76 ∷ 65 ∷ 82 ∷ 89 ∷ 41 ∷ 32 ∷ 86 ∷ 65 ∷ 76
    ∷ 85 ∷ 69 ∷ 83 ∷ 32 ∷ 40 ∷ 50 ∷ 44 ∷ 32 ∷ 39 ∷ 65 ∷ 108 ∷ 108 ∷ 101 ∷ 110 ∷ 39 ∷ 44 ∷ 32 ∷ 50
    ∷ 53 ∷ 44 ∷ 32 ∷ 39 ∷ 84 ∷ 101 ∷ 120 ∷ 97 ∷ 115 ∷ 39 ∷ 44 ∷ 32 ∷ 49 ∷ 53 ∷ 48 ∷ 48 ∷ 48 ∷ 46
    ∷ 48 ∷ 48 ∷ 32 ∷ 41 ∷ 59 ∷ 32 ∷ 73 ∷ 78 ∷ 83 ∷ 69 ∷ 82 ∷ 84 ∷ 32 ∷ 73 ∷ 78 ∷ 84 ∷ 79 ∷ 32 ∷ 67
    ∷ 79 ∷ 77 ∷ 80 ∷ 65 ∷ 78 ∷ 89 ∷ 32 ∷ 40 ∷ 73 ∷ 68 ∷ 44 ∷ 78 ∷ 65 ∷ 77 ∷ 69 ∷ 44 ∷ 65 ∷ 71 ∷ 69
    ∷ 44 ∷ 65 ∷ 68 ∷ 68 ∷ 82 ∷ 69 ∷ 83 ∷ 83 ∷ 44 ∷ 83 ∷ 65 ∷ 76 ∷ 65 ∷ 82 ∷ 89 ∷ 41 ∷ 86 ∷ 65 ∷ 76
    ∷ 85 ∷ 69 ∷ 83 ∷ 32 ∷ 40 ∷ 51 ∷ 44 ∷ 32 ∷ 39 ∷ 84 ∷ 101 ∷ 100 ∷ 100 ∷ 121 ∷ 39 ∷ 44 ∷ 32 ∷ 50
    ∷ 51 ∷ 44 ∷ 32 ∷ 39 ∷ 78 ∷ 111 ∷ 114 ∷ 119 ∷ 97 ∷ 121 ∷ 39 ∷ 44 ∷ 32 ∷ 50 ∷ 48 ∷ 48 ∷ 48 ∷ 48
    ∷ 46 ∷ 48 ∷ 48 ∷ 32 ∷ 41 ∷ 59 ∷ 73 ∷ 78 ∷ 83 ∷ 69 ∷ 82 ∷ 84 ∷ 32 ∷ 73 ∷ 78 ∷ 84 ∷ 79 ∷ 32 ∷ 67
    ∷ 79 ∷ 77 ∷ 80 ∷ 65 ∷ 78 ∷ 89 ∷ 32 ∷ 40 ∷ 73 ∷ 68 ∷ 44 ∷ 78 ∷ 65 ∷ 77 ∷ 69 ∷ 44 ∷ 65 ∷ 71 ∷ 69
    ∷ 44 ∷ 65 ∷ 68 ∷ 68 ∷ 82 ∷ 69 ∷ 83 ∷ 83 ∷ 44 ∷ 83 ∷ 65 ∷ 76 ∷ 65 ∷ 82 ∷ 89 ∷ 41 ∷ 86 ∷ 65 ∷ 76
    ∷ 85 ∷ 69 ∷ 83 ∷ 32 ∷ 40 ∷ 52 ∷ 44 ∷ 32 ∷ 39 ∷ 77 ∷ 97 ∷ 114 ∷ 107 ∷ 39 ∷ 44 ∷ 32 ∷ 50 ∷ 53 ∷ 44
    ∷ 32 ∷ 39 ∷ 82 ∷ 105 ∷ 99 ∷ 104 ∷ 45 ∷ 77 ∷ 111 ∷ 110 ∷ 100 ∷ 32 ∷ 39 ∷ 44 ∷ 32 ∷ 54 ∷ 53 ∷ 48
    ∷ 48 ∷ 48 ∷ 46 ∷ 48 ∷ 48 ∷ 32 ∷ 41 ∷ 59 ∷ []

-- the table
abbrev pub create_sql : Bytes
create_sql =
    67 ∷ 82 ∷ 69 ∷ 65 ∷ 84 ∷ 69 ∷ 32 ∷ 84 ∷ 65 ∷ 66 ∷ 76 ∷ 69 ∷ 32 ∷ 67 ∷ 79 ∷ 77 ∷ 80 ∷ 65 ∷ 78
    ∷ 89 ∷ 40 ∷ 73 ∷ 68 ∷ 32 ∷ 73 ∷ 78 ∷ 84 ∷ 32 ∷ 80 ∷ 82 ∷ 73 ∷ 77 ∷ 65 ∷ 82 ∷ 89 ∷ 32 ∷ 75 ∷ 69
    ∷ 89 ∷ 32 ∷ 32 ∷ 32 ∷ 32 ∷ 32 ∷ 78 ∷ 79 ∷ 84 ∷ 32 ∷ 78 ∷ 85 ∷ 76 ∷ 76 ∷ 44 ∷ 78 ∷ 65 ∷ 77 ∷ 69
    ∷ 32 ∷ 32 ∷ 32 ∷ 32 ∷ 32 ∷ 32 ∷ 32 ∷ 32 ∷ 32 ∷ 32 ∷ 32 ∷ 84 ∷ 69 ∷ 88 ∷ 84 ∷ 32 ∷ 32 ∷ 32 ∷ 32
    ∷ 78 ∷ 79 ∷ 84 ∷ 32 ∷ 78 ∷ 85 ∷ 76 ∷ 76 ∷ 44 ∷ 65 ∷ 71 ∷ 69 ∷ 32 ∷ 32 ∷ 32 ∷ 32 ∷ 32 ∷ 32 ∷ 32
    ∷ 32 ∷ 32 ∷ 32 ∷ 32 ∷ 32 ∷ 73 ∷ 78 ∷ 84 ∷ 32 ∷ 32 ∷ 32 ∷ 32 ∷ 32 ∷ 78 ∷ 79 ∷ 84 ∷ 32 ∷ 78 ∷ 85
    ∷ 76 ∷ 76 ∷ 44 ∷ 65 ∷ 68 ∷ 68 ∷ 82 ∷ 69 ∷ 83 ∷ 83 ∷ 32 ∷ 32 ∷ 32 ∷ 32 ∷ 32 ∷ 32 ∷ 32 ∷ 32 ∷ 67
    ∷ 72 ∷ 65 ∷ 82 ∷ 40 ∷ 53 ∷ 48 ∷ 41 ∷ 44 ∷ 83 ∷ 65 ∷ 76 ∷ 65 ∷ 82 ∷ 89 ∷ 32 ∷ 32 ∷ 32 ∷ 32 ∷ 32
    ∷ 32 ∷ 32 ∷ 32 ∷ 32 ∷ 82 ∷ 69 ∷ 65 ∷ 76 ∷ 32 ∷ 41 ∷ 59 ∷ []

-- the query
abbrev pub select_sql : Bytes
select_sql =
    83 ∷ 69 ∷ 76 ∷ 69 ∷ 67 ∷ 84 ∷ 32 ∷ 42 ∷ 32 ∷ 102 ∷ 114 ∷ 111 ∷ 109 ∷ 32 ∷ 67 ∷ 79 ∷ 77 ∷ 80 ∷ 65
    ∷ 78 ∷ 89 ∷ []

-- a change, and the query
abbrev pub update_sql : Bytes
update_sql =
    85 ∷ 80 ∷ 68 ∷ 65 ∷ 84 ∷ 69 ∷ 32 ∷ 67 ∷ 79 ∷ 77 ∷ 80 ∷ 65 ∷ 78 ∷ 89 ∷ 32 ∷ 115 ∷ 101 ∷ 116 ∷ 32
    ∷ 83 ∷ 65 ∷ 76 ∷ 65 ∷ 82 ∷ 89 ∷ 32 ∷ 61 ∷ 32 ∷ 50 ∷ 53 ∷ 48 ∷ 48 ∷ 48 ∷ 46 ∷ 48 ∷ 48 ∷ 32 ∷ 119
    ∷ 104 ∷ 101 ∷ 114 ∷ 101 ∷ 32 ∷ 73 ∷ 68 ∷ 61 ∷ 49 ∷ 59 ∷ 32 ∷ 83 ∷ 69 ∷ 76 ∷ 69 ∷ 67 ∷ 84 ∷ 32
    ∷ 42 ∷ 32 ∷ 102 ∷ 114 ∷ 111 ∷ 109 ∷ 32 ∷ 67 ∷ 79 ∷ 77 ∷ 80 ∷ 65 ∷ 78 ∷ 89 ∷ []

-- a removal, and the query
abbrev pub delete_sql : Bytes
delete_sql =
    68 ∷ 69 ∷ 76 ∷ 69 ∷ 84 ∷ 69 ∷ 32 ∷ 102 ∷ 114 ∷ 111 ∷ 109 ∷ 32 ∷ 67 ∷ 79 ∷ 77 ∷ 80 ∷ 65 ∷ 78 ∷ 89
    ∷ 32 ∷ 119 ∷ 104 ∷ 101 ∷ 114 ∷ 101 ∷ 32 ∷ 73 ∷ 68 ∷ 61 ∷ 50 ∷ 59 ∷ 32 ∷ 83 ∷ 69 ∷ 76 ∷ 69 ∷ 67
    ∷ 84 ∷ 32 ∷ 42 ∷ 32 ∷ 102 ∷ 114 ∷ 111 ∷ 109 ∷ 32 ∷ 67 ∷ 79 ∷ 77 ∷ 80 ∷ 65 ∷ 78 ∷ 89 ∷ []

-- "Table created successfully\n"
abbrev pub created_text : Bytes
created_text =
    84 ∷ 97 ∷ 98 ∷ 108 ∷ 101 ∷ 32 ∷ 99 ∷ 114 ∷ 101 ∷ 97 ∷ 116 ∷ 101 ∷ 100 ∷ 32 ∷ 115 ∷ 117 ∷ 99 ∷ 99
    ∷ 101 ∷ 115 ∷ 115 ∷ 102 ∷ 117 ∷ 108 ∷ 108 ∷ 121 ∷ 10 ∷ []

-- "Records created successfully\n"
abbrev pub records_created : Bytes
records_created =
    82 ∷ 101 ∷ 99 ∷ 111 ∷ 114 ∷ 100 ∷ 115 ∷ 32 ∷ 99 ∷ 114 ∷ 101 ∷ 97 ∷ 116 ∷ 101 ∷ 100 ∷ 32 ∷ 115
    ∷ 117 ∷ 99 ∷ 99 ∷ 101 ∷ 115 ∷ 115 ∷ 102 ∷ 117 ∷ 108 ∷ 108 ∷ 121 ∷ 10 ∷ []

-- "Operation done successfully\n"
abbrev pub operation_done : Bytes
operation_done =
    79 ∷ 112 ∷ 101 ∷ 114 ∷ 97 ∷ 116 ∷ 105 ∷ 111 ∷ 110 ∷ 32 ∷ 100 ∷ 111 ∷ 110 ∷ 101 ∷ 32 ∷ 115 ∷ 117
    ∷ 99 ∷ 99 ∷ 101 ∷ 115 ∷ 115 ∷ 102 ∷ 117 ∷ 108 ∷ 108 ∷ 121 ∷ 10 ∷ []

-- "%s: " of "Callback function called\n"
abbrev pub colon_heading : Bytes
colon_heading =
    67 ∷ 97 ∷ 108 ∷ 108 ∷ 98 ∷ 97 ∷ 99 ∷ 107 ∷ 32 ∷ 102 ∷ 117 ∷ 110 ∷ 99 ∷ 116 ∷ 105 ∷ 111 ∷ 110
    ∷ 32 ∷ 99 ∷ 97 ∷ 108 ∷ 108 ∷ 101 ∷ 100 ∷ 10 ∷ 58 ∷ 32 ∷ []

-- "%s " of the same text
abbrev pub space_heading : Bytes
space_heading =
    67 ∷ 97 ∷ 108 ∷ 108 ∷ 98 ∷ 97 ∷ 99 ∷ 107 ∷ 32 ∷ 102 ∷ 117 ∷ 110 ∷ 99 ∷ 116 ∷ 105 ∷ 111 ∷ 110
    ∷ 32 ∷ 99 ∷ 97 ∷ 108 ∷ 108 ∷ 101 ∷ 100 ∷ 10 ∷ 32 ∷ []

-- "Call back function say hello world\r\n"
abbrev pub hello : Bytes
hello =
    67 ∷ 97 ∷ 108 ∷ 108 ∷ 32 ∷ 98 ∷ 97 ∷ 99 ∷ 107 ∷ 32 ∷ 102 ∷ 117 ∷ 110 ∷ 99 ∷ 116 ∷ 105 ∷ 111
    ∷ 110 ∷ 32 ∷ 115 ∷ 97 ∷ 121 ∷ 32 ∷ 104 ∷ 101 ∷ 108 ∷ 108 ∷ 111 ∷ 32 ∷ 119 ∷ 111 ∷ 114 ∷ 108
    ∷ 100 ∷ 13 ∷ 10 ∷ []

-- sqlcreatetable.c
abbrev pub sqlcreatetable : Script
sqlcreatetable = record {
  sql = create_sql;
  opened_on = stdout;
  done = created_text;
  heading = none;
  trailer = [];
}

-- sqlinsert.c
abbrev pub sqlinsert : Script
sqlinsert = record {
  sql = insert_sql;
  opened_on = stderr;
  done = records_created;
  heading = none;
  trailer = [];
}

-- sqlselects.c
abbrev pub sqlselects : Script
sqlselects = record {
  sql = select_sql;
  opened_on = stderr;
  done = operation_done;
  heading = some colon_heading;
  trailer = hello;
}

-- sqlupdate.c
abbrev pub sqlupdate : Script
sqlupdate = record {
  sql = update_sql;
  opened_on = stderr;
  done = operation_done;
  heading = some colon_heading;
  trailer = [];
}

-- sqldelete.c
abbrev pub sqldelete : Script
sqldelete = record {
  sql = delete_sql;
  opened_on = stderr;
  done = operation_done;
  heading = some space_heading;
  trailer = [];
}

-- `main` of sqlcreatetable.c
abbrev pub sqlcreatetable_main : Answers → Output × List SqlCall
sqlcreatetable_main = script_main sqlcreatetable

-- `main` of sqlinsert.c
abbrev pub sqlinsert_main : Answers → Output × List SqlCall
sqlinsert_main = script_main sqlinsert

-- `main` of sqlselects.c
abbrev pub sqlselects_main : Answers → Output × List SqlCall
sqlselects_main = script_main sqlselects

-- `main` of sqlupdate.c
abbrev pub sqlupdate_main : Answers → Output × List SqlCall
sqlupdate_main = script_main sqlupdate

-- `main` of sqldelete.c
abbrev pub sqldelete_main : Answers → Output × List SqlCall
sqldelete_main = script_main sqldelete
