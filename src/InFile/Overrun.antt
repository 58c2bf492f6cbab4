-- ===== src/InFile/Overrun.antt =====
-- An index on a PRINTF file of src/infile.cpp, whose virtual lines run past its lines.
