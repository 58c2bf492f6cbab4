-- ===== src/InFile/Index/Build.antt =====
-- `FileContents::index` of src/infile.cpp makes a sound index, and what `lookup` finds in one is there.
